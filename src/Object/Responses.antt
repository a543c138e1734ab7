-- ===== src/Object/Responses.antt =====
-- The responses of pkg/proxy/cri19.go and pkg/proxy/cri110.go, and the interfaces of
-- pkg/proxy/criobject.go that they implement.
pub mod Items
pub mod Types
pub mod Fits
use criproxy.Prelude.{Option, none, some, List, [], ◌∷◌, map}
use criproxy.Text.{Text}
use criproxy.Object.Items.{PodSandbox, Container, Image, ContainerStats, FilesystemUsage}
use criproxy.Object.Sandboxes.{
  VersionResponse, StatusResponse, UpdateRuntimeConfigResponse, RunPodSandboxResponse,
  ListPodSandboxResponse, StopPodSandboxResponse, RemovePodSandboxResponse,
  PodSandboxStatusResponse, PortForwardResponse,
}
use criproxy.Object.Containers.{
  CreateContainerResponse, ListContainersResponse, ListContainerStatsResponse,
  StartContainerResponse, StopContainerResponse, RemoveContainerResponse, ContainerStatusResponse,
  ContainerStatsResponse, UpdateContainerResourcesResponse, ExecSyncResponse, ExecResponse,
  AttachResponse, ReopenContainerLogResponse,
}
use criproxy.Object.Images.{
  ListImagesResponse, ImageStatusResponse, PullImageResponse, RemoveImageResponse,
  ImageFsInfoResponse,
}
use criproxy.Object.Requests.{
  Method, version, status, update_runtime_config, run_pod_sandbox, list_pod_sandbox,
  stop_pod_sandbox, remove_pod_sandbox, pod_sandbox_status, create_container, list_containers,
  list_container_stats, start_container, stop_container, remove_container, container_status,
  container_stats, update_container_resources, exec_sync, exec, attach, reopen_container_log,
  port_forward, list_images, image_status, pull_image, remove_image, image_fs_info,
}

-- The wrapped objects that stand in lists.
pub data Item : Type 0 where
  pod_sandbox : PodSandbox → Item
  container : Container → Item
  container_stats_item : ContainerStats → Item
  image : Image → Item
  filesystem_usage : FilesystemUsage → Item

pub data Response : Type 0 where
  version_response : VersionResponse → Response
  status_response : StatusResponse → Response
  update_runtime_config_response : UpdateRuntimeConfigResponse → Response
  run_pod_sandbox_response : RunPodSandboxResponse → Response
  list_pod_sandbox_response : ListPodSandboxResponse → Response
  stop_pod_sandbox_response : StopPodSandboxResponse → Response
  remove_pod_sandbox_response : RemovePodSandboxResponse → Response
  pod_sandbox_status_response : PodSandboxStatusResponse → Response
  create_container_response : CreateContainerResponse → Response
  list_containers_response : ListContainersResponse → Response
  list_container_stats_response : ListContainerStatsResponse → Response
  start_container_response : StartContainerResponse → Response
  stop_container_response : StopContainerResponse → Response
  remove_container_response : RemoveContainerResponse → Response
  container_status_response : ContainerStatusResponse → Response
  container_stats_response : ContainerStatsResponse → Response
  update_container_resources_response : UpdateContainerResourcesResponse → Response
  exec_sync_response : ExecSyncResponse → Response
  exec_response : ExecResponse → Response
  attach_response : AttachResponse → Response
  reopen_container_log_response : ReopenContainerLogResponse → Response
  port_forward_response : PortForwardResponse → Response
  list_images_response : ListImagesResponse → Response
  image_status_response : ImageStatusResponse → Response
  pull_image_response : PullImageResponse → Response
  remove_image_response : RemoveImageResponse → Response
  image_fs_info_response : ImageFsInfoResponse → Response

-- The method whose result the response is.
unfoldable pub method_of_response : Response → Method
method_of_response (version_response r) = version
method_of_response (status_response r) = status
method_of_response (update_runtime_config_response r) = update_runtime_config
method_of_response (run_pod_sandbox_response r) = run_pod_sandbox
method_of_response (list_pod_sandbox_response r) = list_pod_sandbox
method_of_response (stop_pod_sandbox_response r) = stop_pod_sandbox
method_of_response (remove_pod_sandbox_response r) = remove_pod_sandbox
method_of_response (pod_sandbox_status_response r) = pod_sandbox_status
method_of_response (create_container_response r) = create_container
method_of_response (list_containers_response r) = list_containers
method_of_response (list_container_stats_response r) = list_container_stats
method_of_response (start_container_response r) = start_container
method_of_response (stop_container_response r) = stop_container
method_of_response (remove_container_response r) = remove_container
method_of_response (container_status_response r) = container_status
method_of_response (container_stats_response r) = container_stats
method_of_response (update_container_resources_response r) = update_container_resources
method_of_response (exec_sync_response r) = exec_sync
method_of_response (exec_response r) = exec
method_of_response (attach_response r) = attach
method_of_response (reopen_container_log_response r) = reopen_container_log
method_of_response (port_forward_response r) = port_forward
method_of_response (list_images_response r) = list_images
method_of_response (image_status_response r) = image_status
method_of_response (pull_image_response r) = pull_image
method_of_response (remove_image_response r) = remove_image
method_of_response (image_fs_info_response r) = image_fs_info

-- An empty response, Wrap(nil).
unfoldable pub new_response : Method → Response
new_response version = version_response (record { rest = [] })
new_response status = status_response (record { rest = [] })
new_response update_runtime_config = update_runtime_config_response (record {})
new_response run_pod_sandbox = run_pod_sandbox_response (record { pod_sandbox_id = [] })
new_response list_pod_sandbox = list_pod_sandbox_response (record { items = [] })
new_response stop_pod_sandbox = stop_pod_sandbox_response (record {})
new_response remove_pod_sandbox = remove_pod_sandbox_response (record {})
new_response pod_sandbox_status = pod_sandbox_status_response (record { status = none; rest = [] })
new_response create_container = create_container_response (record { container_id = [] })
new_response list_containers = list_containers_response (record { containers = [] })
new_response list_container_stats = list_container_stats_response (record { stats = [] })
new_response start_container = start_container_response (record {})
new_response stop_container = stop_container_response (record {})
new_response remove_container = remove_container_response (record {})
new_response container_status = container_status_response (record { status = none; rest = [] })
new_response container_stats = container_stats_response (record { stats = none })
new_response update_container_resources = update_container_resources_response (record {})
new_response exec_sync = exec_sync_response (record { rest = [] })
new_response exec = exec_response (record { url = [] })
new_response attach = attach_response (record { url = [] })
new_response reopen_container_log = reopen_container_log_response (record {})
new_response port_forward = port_forward_response (record { url = [] })
new_response list_images = list_images_response (record { images = [] })
new_response image_status = image_status_response (record { image = none; rest = [] })
new_response pull_image = pull_image_response (record { image_ref = [] })
new_response remove_image = remove_image_response (record {})
new_response image_fs_info = image_fs_info_response (record { image_filesystems = [] })

-- Items of an ObjectList
unfoldable pub items? : Response → Option (List Item)
items? (list_pod_sandbox_response r) = some (map pod_sandbox r.items)
items? (list_containers_response r) = some (map container r.containers)
items? (list_container_stats_response r) = some (map container_stats_item r.stats)
items? (list_images_response r) = some (map image r.images)
items? (image_fs_info_response r) = some (map filesystem_usage r.image_filesystems)
items? _ = none

module _ {A : Type 0} (cast : Item → Option A) where
  -- The type assertion on every item of SetItems; none is its panic.
  unfoldable pub cast_all : List Item → Option (List A)
  cast_all [] = some []
  cast_all (x ∷ xs) = elim (cast x) [
    | none ↦ none
    | some a ↦ elim (cast_all xs) [ none ↦ none | some as' ↦ some (a ∷ as') ]
  ]

abbrev pub as_pod_sandbox : Item → Option PodSandbox
as_pod_sandbox (pod_sandbox x) = some x
as_pod_sandbox _ = none

abbrev pub as_container : Item → Option Container
as_container (container x) = some x
as_container _ = none

abbrev pub as_container_stats_item : Item → Option ContainerStats
as_container_stats_item (container_stats_item x) = some x
as_container_stats_item _ = none

abbrev pub as_image : Item → Option Image
as_image (image x) = some x
as_image _ = none

abbrev pub as_filesystem_usage : Item → Option FilesystemUsage
as_filesystem_usage (filesystem_usage x) = some x
as_filesystem_usage _ = none

-- SetItems; none is a panic.
unfoldable pub set_items : List Item → Response → Option Response
unfolding cast_all
set_items items (list_pod_sandbox_response r) = elim (cast_all as_pod_sandbox items) [
  | none ↦ none
  | some xs ↦ some (list_pod_sandbox_response (record r { items = xs }))
]
set_items items (list_containers_response r) = elim (cast_all as_container items) [
  | none ↦ none
  | some xs ↦ some (list_containers_response (record r { containers = xs }))
]
set_items items (list_container_stats_response r) = elim (cast_all as_container_stats_item items) [
  | none ↦ none
  | some xs ↦ some (list_container_stats_response (record r { stats = xs }))
]
set_items items (list_images_response r) = elim (cast_all as_image items) [
  | none ↦ none
  | some xs ↦ some (list_images_response (record r { images = xs }))
]
set_items items (image_fs_info_response r) = elim (cast_all as_filesystem_usage items) [
  | none ↦ none
  | some xs ↦ some (image_fs_info_response (record r { image_filesystems = xs }))
]
set_items items _ = none

-- UrlObject
unfoldable pub url? : Response → Option Text
url? (exec_response r) = some r.url
url? (attach_response r) = some r.url
url? (port_forward_response r) = some r.url
url? _ = none

unfoldable pub set_url : Text → Response → Response
set_url url (exec_response r) = exec_response (record r { url = url })
set_url url (attach_response r) = attach_response (record r { url = url })
set_url url (port_forward_response r) = port_forward_response (record r { url = url })
set_url url r = r
