-- ===== src/Conversion/Same/All.antt =====
-- The requests and responses with the same fields in both versions, as one type for a version.
pub mod RoundTrip
use criproxy.Proxy.World.{Version}
use criproxy.Conversion.Same.Containers.{
  ContainerStatusRequestOf, convert_container_status_request, ContainerStatusResponseOf,
  convert_container_status_response, ListContainersRequestOf, convert_list_containers_request,
  ListContainersResponseOf, convert_list_containers_response,
}
use criproxy.Conversion.Same.Lifecycle.{
  CreateContainerResponseOf, convert_create_container_response, StartContainerRequestOf,
  convert_start_container_request, StartContainerResponseOf, convert_start_container_response,
  StopContainerRequestOf, convert_stop_container_request, StopContainerResponseOf,
  convert_stop_container_response, RemoveContainerRequestOf, convert_remove_container_request,
  RemoveContainerResponseOf, convert_remove_container_response, UpdateContainerResourcesRequestOf,
  convert_update_container_resources_request, UpdateContainerResourcesResponseOf,
  convert_update_container_resources_response,
}
use criproxy.Conversion.Same.Stats.{
  ContainerStatsRequestOf, convert_container_stats_request, ListContainerStatsRequestOf,
  convert_list_container_stats_request,
}
use criproxy.Conversion.Same.Streams.{
  ExecRequestOf, convert_exec_request, ExecResponseOf, convert_exec_response, ExecSyncRequestOf,
  convert_exec_sync_request, ExecSyncResponseOf, convert_exec_sync_response, AttachRequestOf,
  convert_attach_request, AttachResponseOf, convert_attach_response, PortForwardRequestOf,
  convert_port_forward_request, PortForwardResponseOf, convert_port_forward_response,
}
use criproxy.Conversion.Same.Sandboxes.{
  PodSandboxStatusRequestOf, convert_pod_sandbox_status_request, ListPodSandboxRequestOf,
  convert_list_pod_sandbox_request, ListPodSandboxResponseOf, convert_list_pod_sandbox_response,
  RunPodSandboxResponseOf, convert_run_pod_sandbox_response, StopPodSandboxRequestOf,
  convert_stop_pod_sandbox_request, StopPodSandboxResponseOf, convert_stop_pod_sandbox_response,
  RemovePodSandboxRequestOf, convert_remove_pod_sandbox_request, RemovePodSandboxResponseOf,
  convert_remove_pod_sandbox_response,
}
use criproxy.Conversion.Same.Images.{
  ImageStatusRequestOf, convert_image_status_request, ImageStatusResponseOf,
  convert_image_status_response, ListImagesRequestOf, convert_list_images_request,
  ListImagesResponseOf, convert_list_images_response, PullImageResponseOf,
  convert_pull_image_response, RemoveImageRequestOf, convert_remove_image_request,
  RemoveImageResponseOf, convert_remove_image_response, ImageFsInfoRequestOf,
  convert_image_fs_info_request,
}
use criproxy.Conversion.Same.Services.{
  VersionRequestOf, convert_version_request, VersionResponseOf, convert_version_response,
  UpdateRuntimeConfigRequestOf, convert_update_runtime_config_request,
  UpdateRuntimeConfigResponseOf, convert_update_runtime_config_response, StatusRequestOf,
  convert_status_request, StatusResponseOf, convert_status_response,
}

pub data SameMessage (v : Version) : Type 0 where
  attach_request : AttachRequestOf v → SameMessage v
  attach_response : AttachResponseOf v → SameMessage v
  container_stats_request : ContainerStatsRequestOf v → SameMessage v
  container_status_request : ContainerStatusRequestOf v → SameMessage v
  container_status_response : ContainerStatusResponseOf v → SameMessage v
  create_container_response : CreateContainerResponseOf v → SameMessage v
  exec_request : ExecRequestOf v → SameMessage v
  exec_response : ExecResponseOf v → SameMessage v
  exec_sync_request : ExecSyncRequestOf v → SameMessage v
  exec_sync_response : ExecSyncResponseOf v → SameMessage v
  image_fs_info_request : ImageFsInfoRequestOf v → SameMessage v
  image_status_request : ImageStatusRequestOf v → SameMessage v
  image_status_response : ImageStatusResponseOf v → SameMessage v
  list_container_stats_request : ListContainerStatsRequestOf v → SameMessage v
  list_containers_request : ListContainersRequestOf v → SameMessage v
  list_containers_response : ListContainersResponseOf v → SameMessage v
  list_images_request : ListImagesRequestOf v → SameMessage v
  list_images_response : ListImagesResponseOf v → SameMessage v
  list_pod_sandbox_request : ListPodSandboxRequestOf v → SameMessage v
  list_pod_sandbox_response : ListPodSandboxResponseOf v → SameMessage v
  pod_sandbox_status_request : PodSandboxStatusRequestOf v → SameMessage v
  port_forward_request : PortForwardRequestOf v → SameMessage v
  port_forward_response : PortForwardResponseOf v → SameMessage v
  pull_image_response : PullImageResponseOf v → SameMessage v
  remove_container_request : RemoveContainerRequestOf v → SameMessage v
  remove_container_response : RemoveContainerResponseOf v → SameMessage v
  remove_image_request : RemoveImageRequestOf v → SameMessage v
  remove_image_response : RemoveImageResponseOf v → SameMessage v
  remove_pod_sandbox_request : RemovePodSandboxRequestOf v → SameMessage v
  remove_pod_sandbox_response : RemovePodSandboxResponseOf v → SameMessage v
  run_pod_sandbox_response : RunPodSandboxResponseOf v → SameMessage v
  start_container_request : StartContainerRequestOf v → SameMessage v
  start_container_response : StartContainerResponseOf v → SameMessage v
  status_request : StatusRequestOf v → SameMessage v
  status_response : StatusResponseOf v → SameMessage v
  stop_container_request : StopContainerRequestOf v → SameMessage v
  stop_container_response : StopContainerResponseOf v → SameMessage v
  stop_pod_sandbox_request : StopPodSandboxRequestOf v → SameMessage v
  stop_pod_sandbox_response : StopPodSandboxResponseOf v → SameMessage v
  update_container_resources_request : UpdateContainerResourcesRequestOf v → SameMessage v
  update_container_resources_response : UpdateContainerResourcesResponseOf v → SameMessage v
  update_runtime_config_request : UpdateRuntimeConfigRequestOf v → SameMessage v
  update_runtime_config_response : UpdateRuntimeConfigResponseOf v → SameMessage v
  version_request : VersionRequestOf v → SameMessage v
  version_response : VersionResponseOf v → SameMessage v

unfoldable pub convert_same : {u : Version} (v : Version) → SameMessage u → SameMessage v
convert_same v (attach_request m) = attach_request (convert_attach_request v m)
convert_same v (attach_response m) = attach_response (convert_attach_response v m)
convert_same v (container_stats_request m) =
    container_stats_request (convert_container_stats_request v m)
convert_same v (container_status_request m) =
    container_status_request (convert_container_status_request v m)
convert_same v (container_status_response m) =
    container_status_response (convert_container_status_response v m)
convert_same v (create_container_response m) =
    create_container_response (convert_create_container_response v m)
convert_same v (exec_request m) = exec_request (convert_exec_request v m)
convert_same v (exec_response m) = exec_response (convert_exec_response v m)
convert_same v (exec_sync_request m) = exec_sync_request (convert_exec_sync_request v m)
convert_same v (exec_sync_response m) = exec_sync_response (convert_exec_sync_response v m)
convert_same v (image_fs_info_request m) = image_fs_info_request (convert_image_fs_info_request v m)
convert_same v (image_status_request m) = image_status_request (convert_image_status_request v m)
convert_same v (image_status_response m) = image_status_response (convert_image_status_response v m)
convert_same v (list_container_stats_request m) =
    list_container_stats_request (convert_list_container_stats_request v m)
convert_same v (list_containers_request m) =
    list_containers_request (convert_list_containers_request v m)
convert_same v (list_containers_response m) =
    list_containers_response (convert_list_containers_response v m)
convert_same v (list_images_request m) = list_images_request (convert_list_images_request v m)
convert_same v (list_images_response m) = list_images_response (convert_list_images_response v m)
convert_same v (list_pod_sandbox_request m) =
    list_pod_sandbox_request (convert_list_pod_sandbox_request v m)
convert_same v (list_pod_sandbox_response m) =
    list_pod_sandbox_response (convert_list_pod_sandbox_response v m)
convert_same v (pod_sandbox_status_request m) =
    pod_sandbox_status_request (convert_pod_sandbox_status_request v m)
convert_same v (port_forward_request m) = port_forward_request (convert_port_forward_request v m)
convert_same v (port_forward_response m) = port_forward_response (convert_port_forward_response v m)
convert_same v (pull_image_response m) = pull_image_response (convert_pull_image_response v m)
convert_same v (remove_container_request m) =
    remove_container_request (convert_remove_container_request v m)
convert_same v (remove_container_response m) =
    remove_container_response (convert_remove_container_response v m)
convert_same v (remove_image_request m) = remove_image_request (convert_remove_image_request v m)
convert_same v (remove_image_response m) = remove_image_response (convert_remove_image_response v m)
convert_same v (remove_pod_sandbox_request m) =
    remove_pod_sandbox_request (convert_remove_pod_sandbox_request v m)
convert_same v (remove_pod_sandbox_response m) =
    remove_pod_sandbox_response (convert_remove_pod_sandbox_response v m)
convert_same v (run_pod_sandbox_response m) =
    run_pod_sandbox_response (convert_run_pod_sandbox_response v m)
convert_same v (start_container_request m) =
    start_container_request (convert_start_container_request v m)
convert_same v (start_container_response m) =
    start_container_response (convert_start_container_response v m)
convert_same v (status_request m) = status_request (convert_status_request v m)
convert_same v (status_response m) = status_response (convert_status_response v m)
convert_same v (stop_container_request m) =
    stop_container_request (convert_stop_container_request v m)
convert_same v (stop_container_response m) =
    stop_container_response (convert_stop_container_response v m)
convert_same v (stop_pod_sandbox_request m) =
    stop_pod_sandbox_request (convert_stop_pod_sandbox_request v m)
convert_same v (stop_pod_sandbox_response m) =
    stop_pod_sandbox_response (convert_stop_pod_sandbox_response v m)
convert_same v (update_container_resources_request m) =
    update_container_resources_request (convert_update_container_resources_request v m)
convert_same v (update_container_resources_response m) =
    update_container_resources_response (convert_update_container_resources_response v m)
convert_same v (update_runtime_config_request m) =
    update_runtime_config_request (convert_update_runtime_config_request v m)
convert_same v (update_runtime_config_response m) =
    update_runtime_config_response (convert_update_runtime_config_response v m)
convert_same v (version_request m) = version_request (convert_version_request v m)
convert_same v (version_response m) = version_response (convert_version_response v m)
