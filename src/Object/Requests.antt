-- ===== src/Object/Requests.antt =====
-- The requests of pkg/proxy/cri19.go and pkg/proxy/cri110.go, and the interfaces of
-- pkg/proxy/criobject.go that they implement: an accessor gives none where the object does not
-- implement the interface, and a setter changes nothing there.
use criproxy.Object.Version.{Version, cri19, cri112}
use criproxy.Prelude.{true, not, ◌&&◌, Option, none, some, [], if◌then◌else◌}
use criproxy.Text.{Text}
use criproxy.Naming.{Annotations}
use criproxy.Object.Items.{ImageSpec}
use criproxy.Object.Sandboxes.{
  VersionRequest, StatusRequest, UpdateRuntimeConfigRequest, RunPodSandboxRequest,
  ListPodSandboxRequest, StopPodSandboxRequest, RemovePodSandboxRequest, PodSandboxStatusRequest,
  PortForwardRequest,
}
use criproxy.Object.Containers.{
  ContainerConfig, CreateContainerRequest, ListContainersRequest, ListContainerStatsRequest,
  StartContainerRequest, StopContainerRequest, RemoveContainerRequest, ContainerStatusRequest,
  ContainerStatsRequest, UpdateContainerResourcesRequest, ExecSyncRequest, ExecRequest,
  AttachRequest, ReopenContainerLogRequest,
}
use criproxy.Object.Images.{
  ListImagesRequest, ImageStatusRequest, PullImageRequest, RemoveImageRequest, ImageFsInfoRequest,
}

-- The methods of the two services.
pub data Method : Type 0 where
  version status update_runtime_config run_pod_sandbox list_pod_sandbox : Method
  stop_pod_sandbox remove_pod_sandbox pod_sandbox_status create_container list_containers : Method
  list_container_stats start_container stop_container remove_container container_status : Method
  container_stats update_container_resources exec_sync exec attach : Method
  reopen_container_log port_forward list_images image_status pull_image : Method
  remove_image image_fs_info : Method

pub data Request : Type 0 where
  version_request : VersionRequest → Request
  status_request : StatusRequest → Request
  update_runtime_config_request : UpdateRuntimeConfigRequest → Request
  run_pod_sandbox_request : RunPodSandboxRequest → Request
  list_pod_sandbox_request : ListPodSandboxRequest → Request
  stop_pod_sandbox_request : StopPodSandboxRequest → Request
  remove_pod_sandbox_request : RemovePodSandboxRequest → Request
  pod_sandbox_status_request : PodSandboxStatusRequest → Request
  create_container_request : CreateContainerRequest → Request
  list_containers_request : ListContainersRequest → Request
  list_container_stats_request : ListContainerStatsRequest → Request
  start_container_request : StartContainerRequest → Request
  stop_container_request : StopContainerRequest → Request
  remove_container_request : RemoveContainerRequest → Request
  container_status_request : ContainerStatusRequest → Request
  container_stats_request : ContainerStatsRequest → Request
  update_container_resources_request : UpdateContainerResourcesRequest → Request
  exec_sync_request : ExecSyncRequest → Request
  exec_request : ExecRequest → Request
  attach_request : AttachRequest → Request
  reopen_container_log_request : ReopenContainerLogRequest → Request
  port_forward_request : PortForwardRequest → Request
  list_images_request : ListImagesRequest → Request
  image_status_request : ImageStatusRequest → Request
  pull_image_request : PullImageRequest → Request
  remove_image_request : RemoveImageRequest → Request
  image_fs_info_request : ImageFsInfoRequest → Request

-- The method whose argument the request is.
unfoldable pub method_of : Request → Method
method_of (version_request r) = version
method_of (status_request r) = status
method_of (update_runtime_config_request r) = update_runtime_config
method_of (run_pod_sandbox_request r) = run_pod_sandbox
method_of (list_pod_sandbox_request r) = list_pod_sandbox
method_of (stop_pod_sandbox_request r) = stop_pod_sandbox
method_of (remove_pod_sandbox_request r) = remove_pod_sandbox
method_of (pod_sandbox_status_request r) = pod_sandbox_status
method_of (create_container_request r) = create_container
method_of (list_containers_request r) = list_containers
method_of (list_container_stats_request r) = list_container_stats
method_of (start_container_request r) = start_container
method_of (stop_container_request r) = stop_container
method_of (remove_container_request r) = remove_container
method_of (container_status_request r) = container_status
method_of (container_stats_request r) = container_stats
method_of (update_container_resources_request r) = update_container_resources
method_of (exec_sync_request r) = exec_sync
method_of (exec_request r) = exec
method_of (attach_request r) = attach
method_of (reopen_container_log_request r) = reopen_container_log
method_of (port_forward_request r) = port_forward
method_of (list_images_request r) = list_images
method_of (image_status_request r) = image_status
method_of (pull_image_request r) = pull_image
method_of (remove_image_request r) = remove_image
method_of (image_fs_info_request r) = image_fs_info

-- Wrap of version 1.9 with a raw message: ExecRequest and AttachRequest ask for some output stream.
unfoldable pub wrap_exec_19 : ExecRequest → ExecRequest
wrap_exec_19 r =
    if not r.stdout && not r.stderr then record r { stdout = true; stderr = true } else r

unfoldable pub wrap_attach_19 : AttachRequest → AttachRequest
wrap_attach_19 r =
    if not r.stdout && not r.stderr then record r { stdout = true; stderr = true } else r

-- Wrap of version 1.12 keeps the message as it is.
unfoldable pub wrap_exec_112 : ExecRequest → ExecRequest
wrap_exec_112 r = r

unfoldable pub wrap_attach_112 : AttachRequest → AttachRequest
wrap_attach_112 r = r

unfoldable pub wrap_exec : Version → ExecRequest → ExecRequest
unfolding wrap_exec_19 wrap_exec_112
wrap_exec cri19 r = wrap_exec_19 r
wrap_exec cri112 r = wrap_exec_112 r

unfoldable pub wrap_attach : Version → AttachRequest → AttachRequest
unfolding wrap_attach_19 wrap_attach_112
wrap_attach cri19 r = wrap_attach_19 r
wrap_attach cri112 r = wrap_attach_112 r

-- Wrap of the version's wrapper; those of all other requests keep the message in both versions.
unfoldable pub wrap_request : Version → Request → Request
unfolding wrap_exec wrap_attach
wrap_request v (exec_request r) = exec_request (wrap_exec v r)
wrap_request v (attach_request r) = attach_request (wrap_attach v r)
wrap_request v r = r

-- PodSandboxIdObject
unfoldable pub pod_sandbox_id? : Request → Option Text
pod_sandbox_id? (stop_pod_sandbox_request r) = some r.pod_sandbox_id
pod_sandbox_id? (remove_pod_sandbox_request r) = some r.pod_sandbox_id
pod_sandbox_id? (pod_sandbox_status_request r) = some r.pod_sandbox_id
pod_sandbox_id? (create_container_request r) = some r.pod_sandbox_id
pod_sandbox_id? (port_forward_request r) = some r.pod_sandbox_id
pod_sandbox_id? _ = none

unfoldable pub set_pod_sandbox_id : Text → Request → Request
set_pod_sandbox_id id (stop_pod_sandbox_request r) =
    stop_pod_sandbox_request (record r { pod_sandbox_id = id })
set_pod_sandbox_id id (remove_pod_sandbox_request r) =
    remove_pod_sandbox_request (record r { pod_sandbox_id = id })
set_pod_sandbox_id id (pod_sandbox_status_request r) =
    pod_sandbox_status_request (record r { pod_sandbox_id = id })
set_pod_sandbox_id id (create_container_request r) =
    create_container_request (record r { pod_sandbox_id = id })
set_pod_sandbox_id id (port_forward_request r) =
    port_forward_request (record r { pod_sandbox_id = id })
set_pod_sandbox_id id r = r

-- ContainerIdObject
unfoldable pub container_id? : Request → Option Text
container_id? (start_container_request r) = some r.container_id
container_id? (stop_container_request r) = some r.container_id
container_id? (remove_container_request r) = some r.container_id
container_id? (container_status_request r) = some r.container_id
container_id? (container_stats_request r) = some r.container_id
container_id? (update_container_resources_request r) = some r.container_id
container_id? (exec_sync_request r) = some r.container_id
container_id? (exec_request r) = some r.container_id
container_id? (attach_request r) = some r.container_id
container_id? (reopen_container_log_request r) = some r.container_id
container_id? _ = none

unfoldable pub set_container_id : Text → Request → Request
set_container_id id (start_container_request r) =
    start_container_request (record r { container_id = id })
set_container_id id (stop_container_request r) =
    stop_container_request (record r { container_id = id })
set_container_id id (remove_container_request r) =
    remove_container_request (record r { container_id = id })
set_container_id id (container_status_request r) =
    container_status_request (record r { container_id = id })
set_container_id id (container_stats_request r) =
    container_stats_request (record r { container_id = id })
set_container_id id (update_container_resources_request r) =
    update_container_resources_request (record r { container_id = id })
set_container_id id (exec_sync_request r) = exec_sync_request (record r { container_id = id })
set_container_id id (exec_request r) = exec_request (record r { container_id = id })
set_container_id id (attach_request r) = attach_request (record r { container_id = id })
set_container_id id (reopen_container_log_request r) =
    reopen_container_log_request (record r { container_id = id })
set_container_id id r = r

-- GetImage, which reads a nil image as the empty text.
unfoldable pub get_image : Option ImageSpec → Text
get_image none = []
get_image (some spec) = spec.image

unfoldable pub container_config_image : Option ContainerConfig → Text
unfolding get_image
container_config_image none = []
container_config_image (some config) = get_image config.image

abbrev image_spec : Text → Option ImageSpec
image_spec image = some (record { image = image })

-- A container with no configuration has no image to set.
unfoldable pub set_container_config_image : Text → Option ContainerConfig → Option ContainerConfig
set_container_config_image image none = none
set_container_config_image image (some config) = some (record config { image = image_spec image })

-- ImageObject
unfoldable pub image? : Request → Option Text
unfolding get_image container_config_image
image? (create_container_request r) = some (container_config_image r.config)
image? (image_status_request r) = some (get_image r.image)
image? (pull_image_request r) = some (get_image r.image)
image? (remove_image_request r) = some (get_image r.image)
image? _ = none

unfoldable pub set_image : Text → Request → Request
unfolding set_container_config_image
set_image image (create_container_request r) =
    create_container_request (record r { config = set_container_config_image image r.config })
set_image image (image_status_request r) =
    image_status_request (record r { image = image_spec image })
set_image image (pull_image_request r) = pull_image_request (record r { image = image_spec image })
set_image image (remove_image_request r) =
    remove_image_request (record r { image = image_spec image })
set_image image r = r

-- GetAnnotations of a RunPodSandboxRequest, which reads a nil configuration as no annotations.
unfoldable pub annotations? : Request → Option Annotations
annotations? (run_pod_sandbox_request r) = elim r.config [
  | none ↦ some []
  | some config ↦ some config.annotations
]
annotations? _ = none
