-- ===== src/Conversion/Names.antt =====
-- The names of the types of requests and responses, by reflection without their packages.
use mathlib.Core.Option.{some-injective}
use criproxy.Prelude.{◌≡◌, refl, sym, ap, ◌∙◌, some}
use criproxy.Text.{Text, codes}
use criproxy.Proxy.World.{Version, cri19, cri112}
use criproxy.Conversion.Same.All.{SameMessage, convert_same}
use criproxy.Conversion.All.{Message19, Message112, upgrade_message, downgrade_message}

unfoldable pub same_name : {v : Version} → SameMessage v → Text
same_name (SameMessage.attach_request m) = codes "AttachRequest"
same_name (SameMessage.attach_response m) = codes "AttachResponse"
same_name (SameMessage.container_stats_request m) = codes "ContainerStatsRequest"
same_name (SameMessage.container_status_request m) = codes "ContainerStatusRequest"
same_name (SameMessage.container_status_response m) = codes "ContainerStatusResponse"
same_name (SameMessage.create_container_response m) = codes "CreateContainerResponse"
same_name (SameMessage.exec_request m) = codes "ExecRequest"
same_name (SameMessage.exec_response m) = codes "ExecResponse"
same_name (SameMessage.exec_sync_request m) = codes "ExecSyncRequest"
same_name (SameMessage.exec_sync_response m) = codes "ExecSyncResponse"
same_name (SameMessage.image_fs_info_request m) = codes "ImageFsInfoRequest"
same_name (SameMessage.image_status_request m) = codes "ImageStatusRequest"
same_name (SameMessage.image_status_response m) = codes "ImageStatusResponse"
same_name (SameMessage.list_container_stats_request m) = codes "ListContainerStatsRequest"
same_name (SameMessage.list_containers_request m) = codes "ListContainersRequest"
same_name (SameMessage.list_containers_response m) = codes "ListContainersResponse"
same_name (SameMessage.list_images_request m) = codes "ListImagesRequest"
same_name (SameMessage.list_images_response m) = codes "ListImagesResponse"
same_name (SameMessage.list_pod_sandbox_request m) = codes "ListPodSandboxRequest"
same_name (SameMessage.list_pod_sandbox_response m) = codes "ListPodSandboxResponse"
same_name (SameMessage.pod_sandbox_status_request m) = codes "PodSandboxStatusRequest"
same_name (SameMessage.port_forward_request m) = codes "PortForwardRequest"
same_name (SameMessage.port_forward_response m) = codes "PortForwardResponse"
same_name (SameMessage.pull_image_response m) = codes "PullImageResponse"
same_name (SameMessage.remove_container_request m) = codes "RemoveContainerRequest"
same_name (SameMessage.remove_container_response m) = codes "RemoveContainerResponse"
same_name (SameMessage.remove_image_request m) = codes "RemoveImageRequest"
same_name (SameMessage.remove_image_response m) = codes "RemoveImageResponse"
same_name (SameMessage.remove_pod_sandbox_request m) = codes "RemovePodSandboxRequest"
same_name (SameMessage.remove_pod_sandbox_response m) = codes "RemovePodSandboxResponse"
same_name (SameMessage.run_pod_sandbox_response m) = codes "RunPodSandboxResponse"
same_name (SameMessage.start_container_request m) = codes "StartContainerRequest"
same_name (SameMessage.start_container_response m) = codes "StartContainerResponse"
same_name (SameMessage.status_request m) = codes "StatusRequest"
same_name (SameMessage.status_response m) = codes "StatusResponse"
same_name (SameMessage.stop_container_request m) = codes "StopContainerRequest"
same_name (SameMessage.stop_container_response m) = codes "StopContainerResponse"
same_name (SameMessage.stop_pod_sandbox_request m) = codes "StopPodSandboxRequest"
same_name (SameMessage.stop_pod_sandbox_response m) = codes "StopPodSandboxResponse"
same_name (SameMessage.update_container_resources_request m) =
    codes "UpdateContainerResourcesRequest"
same_name (SameMessage.update_container_resources_response m) =
    codes "UpdateContainerResourcesResponse"
same_name (SameMessage.update_runtime_config_request m) = codes "UpdateRuntimeConfigRequest"
same_name (SameMessage.update_runtime_config_response m) = codes "UpdateRuntimeConfigResponse"
same_name (SameMessage.version_request m) = codes "VersionRequest"
same_name (SameMessage.version_response m) = codes "VersionResponse"

unfoldable pub name19 : Message19 → Text
unfolding same_name
name19 (Message19.same m) = same_name m
name19 (Message19.container_stats_response m) = codes "ContainerStatsResponse"
name19 (Message19.create_container_request m) = codes "CreateContainerRequest"
name19 (Message19.image_fs_info_response m) = codes "ImageFsInfoResponse"
name19 (Message19.list_container_stats_response m) = codes "ListContainerStatsResponse"
name19 (Message19.pod_sandbox_status_response m) = codes "PodSandboxStatusResponse"
name19 (Message19.pull_image_request m) = codes "PullImageRequest"
name19 (Message19.run_pod_sandbox_request m) = codes "RunPodSandboxRequest"

unfoldable pub name112 : Message112 → Text
unfolding same_name
name112 (Message112.same m) = same_name m
name112 (Message112.container_stats_response m) = codes "ContainerStatsResponse"
name112 (Message112.create_container_request m) = codes "CreateContainerRequest"
name112 (Message112.image_fs_info_response m) = codes "ImageFsInfoResponse"
name112 (Message112.list_container_stats_response m) = codes "ListContainerStatsResponse"
name112 (Message112.pod_sandbox_status_response m) = codes "PodSandboxStatusResponse"
name112 (Message112.pull_image_request m) = codes "PullImageRequest"
name112 (Message112.run_pod_sandbox_request m) = codes "RunPodSandboxRequest"
name112 (Message112.reopen_container_log_request m) = codes "ReopenContainerLogRequest"
name112 Message112.reopen_container_log_response = codes "ReopenContainerLogResponse"

same_name-convert_same :
    {u : Version} (v : Version) (m : SameMessage u) → same_name (convert_same v m) ≡ same_name m
unfolding same_name convert_same
same_name-convert_same v (SameMessage.attach_request m) = refl
same_name-convert_same v _ = refl

-- A conversion keeps the name of the type.
pub name112-upgrade_message : (m : Message19) → name112 (upgrade_message m) ≡ name19 m
unfolding name19 name112 upgrade_message
name112-upgrade_message (Message19.same m) = same_name-convert_same cri112 m
name112-upgrade_message _ = refl

pub name19-downgrade_message :
    (m : Message112) {old : Message19} → downgrade_message m ≡ some old → name19 old ≡ name112 m
unfolding name19 name112 downgrade_message
name19-downgrade_message (Message112.same m) e =
    ap name19 (sym (some-injective _ _ e)) ∙ same_name-convert_same cri19 m
name19-downgrade_message (Message112.reopen_container_log_request m) e = cc
name19-downgrade_message Message112.reopen_container_log_response e = cc
name19-downgrade_message _ e = ap name19 (sym (some-injective _ _ e))
