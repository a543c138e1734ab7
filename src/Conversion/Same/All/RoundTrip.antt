-- ===== src/Conversion/Same/All/RoundTrip.antt =====
-- A message that is the same in both versions comes back from a conversion there and back.
use criproxy.Prelude.{◌≡◌, ap}
use criproxy.Proxy.World.{Version}
use criproxy.Conversion.Same.Containers.RoundTrip.{
  convert_container_status_request-convert, convert_container_status_response-convert,
  convert_list_containers_request-convert, convert_list_containers_response-convert,
}
use criproxy.Conversion.Same.Lifecycle.RoundTrip.{
  convert_create_container_response-convert, convert_start_container_request-convert,
  convert_start_container_response-convert, convert_stop_container_request-convert,
  convert_stop_container_response-convert, convert_remove_container_request-convert,
  convert_remove_container_response-convert, convert_update_container_resources_request-convert,
  convert_update_container_resources_response-convert,
}
use criproxy.Conversion.Same.Stats.RoundTrip.{
  convert_container_stats_request-convert, convert_list_container_stats_request-convert,
}
use criproxy.Conversion.Same.Streams.RoundTrip.{
  convert_exec_request-convert, convert_exec_response-convert, convert_exec_sync_request-convert,
  convert_exec_sync_response-convert, convert_attach_request-convert,
  convert_attach_response-convert, convert_port_forward_request-convert,
  convert_port_forward_response-convert,
}
use criproxy.Conversion.Same.Sandboxes.RoundTrip.{
  convert_pod_sandbox_status_request-convert, convert_list_pod_sandbox_request-convert,
  convert_list_pod_sandbox_response-convert, convert_run_pod_sandbox_response-convert,
  convert_stop_pod_sandbox_request-convert, convert_stop_pod_sandbox_response-convert,
  convert_remove_pod_sandbox_request-convert, convert_remove_pod_sandbox_response-convert,
}
use criproxy.Conversion.Same.Images.RoundTrip.{
  convert_image_status_request-convert, convert_image_status_response-convert,
  convert_list_images_request-convert, convert_list_images_response-convert,
  convert_pull_image_response-convert, convert_remove_image_request-convert,
  convert_remove_image_response-convert, convert_image_fs_info_request-convert,
}
use criproxy.Conversion.Same.Services.RoundTrip.{
  convert_version_request-convert, convert_version_response-convert,
  convert_update_runtime_config_request-convert, convert_update_runtime_config_response-convert,
  convert_status_request-convert, convert_status_response-convert,
}
use criproxy.Conversion.Same.All.{SameMessage, convert_same}

pub convert_same-convert :
    {u : Version} (v : Version) (m : SameMessage u) → convert_same u (convert_same v m) ≡ m
unfolding convert_same
convert_same-convert v (SameMessage.attach_request m) =
    ap SameMessage.attach_request (convert_attach_request-convert v m)
convert_same-convert v (SameMessage.attach_response m) =
    ap SameMessage.attach_response (convert_attach_response-convert v m)
convert_same-convert v (SameMessage.container_stats_request m) =
    ap SameMessage.container_stats_request (convert_container_stats_request-convert v m)
convert_same-convert v (SameMessage.container_status_request m) =
    ap SameMessage.container_status_request (convert_container_status_request-convert v m)
convert_same-convert v (SameMessage.container_status_response m) =
    ap SameMessage.container_status_response (convert_container_status_response-convert v m)
convert_same-convert v (SameMessage.create_container_response m) =
    ap SameMessage.create_container_response (convert_create_container_response-convert v m)
convert_same-convert v (SameMessage.exec_request m) =
    ap SameMessage.exec_request (convert_exec_request-convert v m)
convert_same-convert v (SameMessage.exec_response m) =
    ap SameMessage.exec_response (convert_exec_response-convert v m)
convert_same-convert v (SameMessage.exec_sync_request m) =
    ap SameMessage.exec_sync_request (convert_exec_sync_request-convert v m)
convert_same-convert v (SameMessage.exec_sync_response m) =
    ap SameMessage.exec_sync_response (convert_exec_sync_response-convert v m)
convert_same-convert v (SameMessage.image_fs_info_request m) =
    ap SameMessage.image_fs_info_request (convert_image_fs_info_request-convert v m)
convert_same-convert v (SameMessage.image_status_request m) =
    ap SameMessage.image_status_request (convert_image_status_request-convert v m)
convert_same-convert v (SameMessage.image_status_response m) =
    ap SameMessage.image_status_response (convert_image_status_response-convert v m)
convert_same-convert v (SameMessage.list_container_stats_request m) =
    ap SameMessage.list_container_stats_request (convert_list_container_stats_request-convert v m)
convert_same-convert v (SameMessage.list_containers_request m) =
    ap SameMessage.list_containers_request (convert_list_containers_request-convert v m)
convert_same-convert v (SameMessage.list_containers_response m) =
    ap SameMessage.list_containers_response (convert_list_containers_response-convert v m)
convert_same-convert v (SameMessage.list_images_request m) =
    ap SameMessage.list_images_request (convert_list_images_request-convert v m)
convert_same-convert v (SameMessage.list_images_response m) =
    ap SameMessage.list_images_response (convert_list_images_response-convert v m)
convert_same-convert v (SameMessage.list_pod_sandbox_request m) =
    ap SameMessage.list_pod_sandbox_request (convert_list_pod_sandbox_request-convert v m)
convert_same-convert v (SameMessage.list_pod_sandbox_response m) =
    ap SameMessage.list_pod_sandbox_response (convert_list_pod_sandbox_response-convert v m)
convert_same-convert v (SameMessage.pod_sandbox_status_request m) =
    ap SameMessage.pod_sandbox_status_request (convert_pod_sandbox_status_request-convert v m)
convert_same-convert v (SameMessage.port_forward_request m) =
    ap SameMessage.port_forward_request (convert_port_forward_request-convert v m)
convert_same-convert v (SameMessage.port_forward_response m) =
    ap SameMessage.port_forward_response (convert_port_forward_response-convert v m)
convert_same-convert v (SameMessage.pull_image_response m) =
    ap SameMessage.pull_image_response (convert_pull_image_response-convert v m)
convert_same-convert v (SameMessage.remove_container_request m) =
    ap SameMessage.remove_container_request (convert_remove_container_request-convert v m)
convert_same-convert v (SameMessage.remove_container_response m) =
    ap SameMessage.remove_container_response (convert_remove_container_response-convert v m)
convert_same-convert v (SameMessage.remove_image_request m) =
    ap SameMessage.remove_image_request (convert_remove_image_request-convert v m)
convert_same-convert v (SameMessage.remove_image_response m) =
    ap SameMessage.remove_image_response (convert_remove_image_response-convert v m)
convert_same-convert v (SameMessage.remove_pod_sandbox_request m) =
    ap SameMessage.remove_pod_sandbox_request (convert_remove_pod_sandbox_request-convert v m)
convert_same-convert v (SameMessage.remove_pod_sandbox_response m) =
    ap SameMessage.remove_pod_sandbox_response (convert_remove_pod_sandbox_response-convert v m)
convert_same-convert v (SameMessage.run_pod_sandbox_response m) =
    ap SameMessage.run_pod_sandbox_response (convert_run_pod_sandbox_response-convert v m)
convert_same-convert v (SameMessage.start_container_request m) =
    ap SameMessage.start_container_request (convert_start_container_request-convert v m)
convert_same-convert v (SameMessage.start_container_response m) =
    ap SameMessage.start_container_response (convert_start_container_response-convert v m)
convert_same-convert v (SameMessage.status_request m) =
    ap SameMessage.status_request (convert_status_request-convert v m)
convert_same-convert v (SameMessage.status_response m) =
    ap SameMessage.status_response (convert_status_response-convert v m)
convert_same-convert v (SameMessage.stop_container_request m) =
    ap SameMessage.stop_container_request (convert_stop_container_request-convert v m)
convert_same-convert v (SameMessage.stop_container_response m) =
    ap SameMessage.stop_container_response (convert_stop_container_response-convert v m)
convert_same-convert v (SameMessage.stop_pod_sandbox_request m) =
    ap SameMessage.stop_pod_sandbox_request (convert_stop_pod_sandbox_request-convert v m)
convert_same-convert v (SameMessage.stop_pod_sandbox_response m) =
    ap SameMessage.stop_pod_sandbox_response (convert_stop_pod_sandbox_response-convert v m)
convert_same-convert v (SameMessage.update_container_resources_request m) =
    ap SameMessage.update_container_resources_request
      (convert_update_container_resources_request-convert v m)
convert_same-convert v (SameMessage.update_container_resources_response m) =
    ap SameMessage.update_container_resources_response
      (convert_update_container_resources_response-convert v m)
convert_same-convert v (SameMessage.update_runtime_config_request m) =
    ap SameMessage.update_runtime_config_request (convert_update_runtime_config_request-convert v m)
convert_same-convert v (SameMessage.update_runtime_config_response m) =
    ap SameMessage.update_runtime_config_response
      (convert_update_runtime_config_response-convert v m)
convert_same-convert v (SameMessage.version_request m) =
    ap SameMessage.version_request (convert_version_request-convert v m)
convert_same-convert v (SameMessage.version_response m) =
    ap SameMessage.version_response (convert_version_response-convert v m)
