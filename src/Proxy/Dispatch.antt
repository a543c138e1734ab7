-- ===== src/Proxy/Dispatch.antt =====
-- Match, Intercept and the dispatch table of pkg/proxy/proxy.go.
pub mod Methods
pub mod Types
pub mod Wrapping
pub mod Wrappers
use criproxy.Prelude.{
  Bool, true, false, Option, none, some, List, [], ◌∷◌, ◌++◌, ◌+◌, length, take, drop,
  if◌then◌else◌,
}
use criproxy.Text.{Text, codes, text_eq, has_prefix, last_index}
use criproxy.Errors.{bad_method_prefix, no_handler, no_interceptor, no_wrapper}
use criproxy.Object.Requests.{Request, reopen_container_log_request, method_of, wrap_request}
use criproxy.Object.Responses.{Response, new_response}
use criproxy.Proxy.World.{Version, cri19, cri112, M, ◌>>=◌, fail}
use criproxy.Proxy.Client.{Env}
use criproxy.Proxy.Routing.{RuntimeProxy}
use criproxy.Proxy.Handlers.Common
use criproxy.Proxy.Handlers.Sandbox
use criproxy.Proxy.Handlers.Container
use criproxy.Proxy.Handlers.Image
use criproxy.Proxy.Handlers.Listing

-- The handlers, which the table has as method values.
pub data Handler : Type 0 where
  to_primary to_update_runtime_config to_run_pod_sandbox to_list_objects : Handler
  to_pod_sandbox to_pod_sandbox_status to_create_container to_container : Handler
  to_container_status to_container_stats to_image : Handler

abbrev pub dispatch_table : List (Text × Handler)
dispatch_table =
    (codes "RuntimeService/Version", to_primary)
    ∷ (codes "RuntimeService/Status", to_primary)
    ∷ (codes "RuntimeService/UpdateRuntimeConfig", to_update_runtime_config)
    ∷ (codes "RuntimeService/RunPodSandbox", to_run_pod_sandbox)
    ∷ (codes "RuntimeService/ListPodSandbox", to_list_objects)
    ∷ (codes "RuntimeService/StopPodSandbox", to_pod_sandbox)
    ∷ (codes "RuntimeService/RemovePodSandbox", to_pod_sandbox)
    ∷ (codes "RuntimeService/PodSandboxStatus", to_pod_sandbox_status)
    ∷ (codes "RuntimeService/CreateContainer", to_create_container)
    ∷ (codes "RuntimeService/ListContainers", to_list_objects)
    ∷ (codes "RuntimeService/ListContainerStats", to_list_objects)
    ∷ (codes "RuntimeService/StartContainer", to_container)
    ∷ (codes "RuntimeService/StopContainer", to_container)
    ∷ (codes "RuntimeService/RemoveContainer", to_container)
    ∷ (codes "RuntimeService/ContainerStatus", to_container_status)
    ∷ (codes "RuntimeService/ContainerStats", to_container_stats)
    ∷ (codes "RuntimeService/UpdateContainerResources", to_container)
    ∷ (codes "RuntimeService/ExecSync", to_container)
    ∷ (codes "RuntimeService/Exec", to_container)
    ∷ (codes "RuntimeService/Attach", to_container)
    ∷ (codes "RuntimeService/ReopenContainerLog", to_container)
    ∷ (codes "RuntimeService/PortForward", to_pod_sandbox)
    ∷ (codes "ImageService/ListImages", to_list_objects)
    ∷ (codes "ImageService/ImageStatus", to_image)
    ∷ (codes "ImageService/PullImage", to_image)
    ∷ (codes "ImageService/RemoveImage", to_image)
    ∷ (codes "ImageService/ImageFsInfo", to_list_objects)
    ∷ []

unfoldable pub handler_from : List (Text × Handler) → Text → Option Handler
handler_from [] method = none
handler_from ((name, h) ∷ rest) method =
    if text_eq name method then some h else handler_from rest method

unfoldable pub handler_for : Text → Option Handler
unfolding handler_from
handler_for method = handler_from dispatch_table method

unfoldable pub handle : Env → RuntimeProxy → Handler → Text → Request → Response → M Response
handle env r to_primary = Common.pass_to_primary env r
handle env r to_update_runtime_config = Common.update_runtime_config env r
handle env r to_run_pod_sandbox = Sandbox.run_pod_sandbox env r
handle env r to_list_objects = Listing.list_objects env r
handle env r to_pod_sandbox = Sandbox.handle_pod_sandbox env r
handle env r to_pod_sandbox_status = Sandbox.pod_sandbox_status env r
handle env r to_create_container = Container.create_container env r
handle env r to_container = Container.handle_container env r
handle env r to_container_status = Container.container_status env r
handle env r to_container_stats = Container.container_stats env r
handle env r to_image = Image.handle_image env r

unfoldable pub proto_package : Version → Text
proto_package cri19 = codes "runtime"
proto_package cri112 = codes "runtime.v1alpha2"

unfoldable pub method_prefix : Version → Text
method_prefix v = codes "/" ++ (proto_package v ++ codes ".")

unfoldable pub matches : RuntimeProxy → Text → Bool
matches r full_method = elim (last_index full_method (codes ".")) [
  | none ↦ false
  | some dot ↦ text_eq (take (dot + 1) full_method) (method_prefix r.cri_version)
]

-- WrapObject of a request: the wrapped one, and its empty response. Version 1.9 has no
-- ReopenContainerLog.
unfoldable pub wrap_object : Version → Request → Option (Request × Response)
wrap_object cri19 (reopen_container_log_request req) = none
wrap_object v req = some (wrap_request v req, new_response (method_of req))

unfoldable pub intercept : Env → RuntimeProxy → Text → Request → M Response
intercept env r full_method req =
    if has_prefix full_method (method_prefix r.cri_version)
    then (elim (handler_for (drop (length (method_prefix r.cri_version)) full_method)) [
      | none ↦ fail (no_handler (drop (length (method_prefix r.cri_version)) full_method))
      | some h ↦ elim (wrap_object r.cri_version req) [
        | none ↦ fail no_wrapper
        | some wrapped ↦ handle env r h full_method wrapped.0 wrapped.1
      ]
    ])
    else fail (bad_method_prefix full_method)
