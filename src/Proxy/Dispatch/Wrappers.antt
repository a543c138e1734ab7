-- ===== src/Proxy/Dispatch/Wrappers.antt =====
-- The wrappers that pkg/proxy/cri19.go and pkg/proxy/cri110.go register, by their types' names.
use criproxy.Prelude.{
  ◌≡◌, ◌∙◌, Bool, true, false, refl, Option, none, some, List, [], ◌∷◌, ◌++◌, map, All,
}
use criproxy.Text.{Text, codes, text_eq, last_index, has_prefix}
use criproxy.Object.Matcher.{
  TypeMatcher, new_type_matcher, request_suffix, response_suffix, register_types, match_type,
}
use criproxy.Object.Matcher.Names.{versioned, IsVersion}
use criproxy.Object.Matcher.Registered.{IsNamed, matched, match_type-registered}
use criproxy.Object.Requests.{
  Request, reopen_container_log_request, Method, method_of, wrap_request,
}
use criproxy.Object.Requests
use criproxy.Object.Responses.{Response, method_of_response, new_response}
use criproxy.Proxy.World.{Version, cri19, cri112}
use criproxy.Proxy.Dispatch.{wrap_object}
use criproxy.Proxy.Dispatch.Wrapping.{IsKeptIn, wrap_object-IsKept}

-- What the names of a version's wrappers end in, after the underscore.
abbrev pub version_suffix : Version → Text
version_suffix cri19 = codes "19"
version_suffix cri112 = codes "112"

-- The types that both versions register, without the version.
abbrev common_names : List Text
common_names =
    codes "PodSandbox"
    ∷ codes "Container"
    ∷ codes "Image"
    ∷ codes "PodSandboxStatus"
    ∷ codes "ContainerStatus"
    ∷ codes "ContainerStats"
    ∷ codes "FilesystemUsage"
    ∷ codes "VersionRequest"
    ∷ codes "VersionResponse"
    ∷ codes "StatusRequest"
    ∷ codes "StatusResponse"
    ∷ codes "UpdateRuntimeConfigRequest"
    ∷ codes "UpdateRuntimeConfigResponse"
    ∷ codes "RunPodSandboxRequest"
    ∷ codes "RunPodSandboxResponse"
    ∷ codes "ListPodSandboxRequest"
    ∷ codes "ListPodSandboxResponse"
    ∷ codes "StopPodSandboxRequest"
    ∷ codes "StopPodSandboxResponse"
    ∷ codes "RemovePodSandboxRequest"
    ∷ codes "RemovePodSandboxResponse"
    ∷ codes "PodSandboxStatusRequest"
    ∷ codes "PodSandboxStatusResponse"
    ∷ codes "CreateContainerRequest"
    ∷ codes "CreateContainerResponse"
    ∷ codes "ListContainersRequest"
    ∷ codes "ListContainersResponse"
    ∷ codes "ListContainerStatsRequest"
    ∷ codes "ListContainerStatsResponse"
    ∷ codes "StartContainerRequest"
    ∷ codes "StartContainerResponse"
    ∷ codes "StopContainerRequest"
    ∷ codes "StopContainerResponse"
    ∷ codes "RemoveContainerRequest"
    ∷ codes "RemoveContainerResponse"
    ∷ codes "ContainerStatusRequest"
    ∷ codes "ContainerStatusResponse"
    ∷ codes "ContainerStatsRequest"
    ∷ codes "ContainerStatsResponse"
    ∷ codes "ExecSyncRequest"
    ∷ codes "ExecSyncResponse"
    ∷ codes "ExecRequest"
    ∷ codes "ExecResponse"
    ∷ codes "AttachRequest"
    ∷ codes "AttachResponse"
    ∷ codes "PortForwardRequest"
    ∷ codes "PortForwardResponse"
    ∷ codes "ListImagesRequest"
    ∷ codes "ListImagesResponse"
    ∷ codes "ImageStatusRequest"
    ∷ codes "ImageStatusResponse"
    ∷ codes "PullImageRequest"
    ∷ codes "PullImageResponse"
    ∷ codes "RemoveImageRequest"
    ∷ codes "RemoveImageResponse"
    ∷ codes "ImageFsInfoRequest"
    ∷ codes "ImageFsInfoResponse"
    ∷ codes "UpdateContainerResourcesRequest"
    ∷ codes "UpdateContainerResourcesResponse"
    ∷ []

abbrev pub registered_names : Version → List Text
registered_names cri19 = common_names
registered_names cri112 =
    codes "ReopenContainerLogRequest" ∷ codes "ReopenContainerLogResponse" ∷ common_names

-- The type matchers after both init functions.
abbrev pub type_matcher : Version → TypeMatcher
type_matcher v =
    register_types (map (versioned (version_suffix v)) (registered_names v)) new_type_matcher

-- What the names of a method's messages begin with.
abbrev pub message_name : Method → Text
message_name Requests.version = codes "Version"
message_name Requests.status = codes "Status"
message_name Requests.update_runtime_config = codes "UpdateRuntimeConfig"
message_name Requests.run_pod_sandbox = codes "RunPodSandbox"
message_name Requests.list_pod_sandbox = codes "ListPodSandbox"
message_name Requests.stop_pod_sandbox = codes "StopPodSandbox"
message_name Requests.remove_pod_sandbox = codes "RemovePodSandbox"
message_name Requests.pod_sandbox_status = codes "PodSandboxStatus"
message_name Requests.create_container = codes "CreateContainer"
message_name Requests.list_containers = codes "ListContainers"
message_name Requests.list_container_stats = codes "ListContainerStats"
message_name Requests.start_container = codes "StartContainer"
message_name Requests.stop_container = codes "StopContainer"
message_name Requests.remove_container = codes "RemoveContainer"
message_name Requests.container_status = codes "ContainerStatus"
message_name Requests.container_stats = codes "ContainerStats"
message_name Requests.update_container_resources = codes "UpdateContainerResources"
message_name Requests.exec_sync = codes "ExecSync"
message_name Requests.exec = codes "Exec"
message_name Requests.attach = codes "Attach"
message_name Requests.reopen_container_log = codes "ReopenContainerLog"
message_name Requests.port_forward = codes "PortForward"
message_name Requests.list_images = codes "ListImages"
message_name Requests.image_status = codes "ImageStatus"
message_name Requests.pull_image = codes "PullImage"
message_name Requests.remove_image = codes "RemoveImage"
message_name Requests.image_fs_info = codes "ImageFsInfo"

-- The types of a wrapped request and its response.
abbrev pub wrapped_types : Version → Option (Request × Response) → Option (Text × Option Text)
wrapped_types v none = none
wrapped_types v (some (req, resp)) = some (
  versioned (version_suffix v) (message_name (method_of req) ++ request_suffix),
  some (versioned (version_suffix v) (message_name (method_of_response resp) ++ response_suffix)),
)

version_suffix-IsVersion : (v : Version) → IsVersion (version_suffix v)
unfolding last_index has_prefix
version_suffix-IsVersion cri19 = refl
version_suffix-IsVersion cri112 = refl

abbrev all_named : List Text → Bool
all_named [] = true
all_named ([] ∷ bases) = false
all_named ((c ∷ s) ∷ bases) = all_named bases

IsNamed-All : (bases : List Text) → all_named bases ≡ true → All IsNamed bases
IsNamed-All [] h = tt
IsNamed-All ([] ∷ bases) h = cc
IsNamed-All ((c ∷ s) ∷ bases) h = (λ e. cc, IsNamed-All bases h)

registered_names-IsNamed : (v : Version) → All IsNamed (registered_names v)
registered_names-IsNamed cri19 = IsNamed-All (registered_names cri19) refl
registered_names-IsNamed cri112 = IsNamed-All (registered_names cri112) refl

wrap_object-matched :
    (v : Version) (req : Request)
    → matched (version_suffix v) (registered_names v) (message_name (method_of req))
      ≡ wrapped_types v (wrap_object v req)
unfolding wrap_object wrap_request method_of method_of_response new_response text_eq
wrap_object-matched cri19 (reopen_container_log_request r) = refl
wrap_object-matched cri19 _ = refl
wrap_object-matched cri112 (reopen_container_log_request r) = refl
wrap_object-matched cri112 _ = refl

-- The wrapper of a request, and its empty response, have the types that the version's matcher finds
-- for the name of the request's type; and there is none for the request exactly where the matcher
-- finds no type. The wrapped request is the request; but version 1.9 has a request to Exec or Attach
-- that asks for no output stream ask for both, and nothing else changes in it.
pub wrap_object-match_type :
    (v : Version) (req : Request)
    → (match_type (type_matcher v) (message_name (method_of req) ++ request_suffix)
        ≡ wrapped_types v (wrap_object v req))
      × IsKeptIn v req (wrap_object v req)
wrap_object-match_type v req = (
  match_type-registered (version_suffix v) (version_suffix-IsVersion v) (registered_names v)
        (message_name (method_of req)) (registered_names-IsNamed v)
      ∙ wrap_object-matched v req,
  wrap_object-IsKept v req,
)
