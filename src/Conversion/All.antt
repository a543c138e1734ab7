-- ===== src/Conversion/All.antt =====
-- The requests and responses of both versions, and the conversions that RegisterConversions of
-- pkg/runtimeapis/v1_9/conversion_generated.go registers for them.
pub mod Back
use criproxy.Prelude.{Option, none, some}
use criproxy.Proxy.World.{cri19, cri112}
use criproxy.Conversion.Messages.{
  Encoded, RunPodSandboxRequest19, RunPodSandboxRequest112, PullImageRequest19, PullImageRequest112,
  CreateContainerRequest19, CreateContainerRequest112,
}
use criproxy.Conversion.Messages.Statuses.{
  ContainerStatsResponse19, ContainerStatsResponse112, ListContainerStatsResponse19,
  ListContainerStatsResponse112, ImageFsInfoResponse19, ImageFsInfoResponse112,
  PodSandboxStatusResponse19, PodSandboxStatusResponse112,
}
use criproxy.Conversion.Upgrade.{
  upgrade_run_pod_sandbox_request, upgrade_pull_image_request, upgrade_create_container_request,
}
use criproxy.Conversion.Upgrade.Statuses.{
  upgrade_container_stats_response, upgrade_list_container_stats_response,
  upgrade_image_fs_info_response, upgrade_pod_sandbox_status_response,
}
use criproxy.Conversion.Downgrade.{
  downgrade_run_pod_sandbox_request, downgrade_pull_image_request,
  downgrade_create_container_request,
}
use criproxy.Conversion.Downgrade.Statuses.{
  downgrade_container_stats_response, downgrade_list_container_stats_response,
  downgrade_image_fs_info_response, downgrade_pod_sandbox_status_response,
}
use criproxy.Conversion.Same.All.{SameMessage, convert_same}

pub data Message19 : Type 0 where
  same : SameMessage cri19 → Message19
  container_stats_response : ContainerStatsResponse19 → Message19
  create_container_request : CreateContainerRequest19 → Message19
  image_fs_info_response : ImageFsInfoResponse19 → Message19
  list_container_stats_response : ListContainerStatsResponse19 → Message19
  pod_sandbox_status_response : PodSandboxStatusResponse19 → Message19
  pull_image_request : PullImageRequest19 → Message19
  run_pod_sandbox_request : RunPodSandboxRequest19 → Message19

pub data Message112 : Type 0 where
  same : SameMessage cri112 → Message112
  container_stats_response : ContainerStatsResponse112 → Message112
  create_container_request : CreateContainerRequest112 → Message112
  image_fs_info_response : ImageFsInfoResponse112 → Message112
  list_container_stats_response : ListContainerStatsResponse112 → Message112
  pod_sandbox_status_response : PodSandboxStatusResponse112 → Message112
  pull_image_request : PullImageRequest112 → Message112
  run_pod_sandbox_request : RunPodSandboxRequest112 → Message112
  reopen_container_log_request : Encoded → Message112
  reopen_container_log_response : Message112

-- The functions that are registered for the types of version 1.9.
unfoldable pub upgrade_message : Message19 → Message112
upgrade_message (Message19.same m) = Message112.same (convert_same cri112 m)
upgrade_message (Message19.container_stats_response m) =
    Message112.container_stats_response (upgrade_container_stats_response m)
upgrade_message (Message19.create_container_request m) =
    Message112.create_container_request (upgrade_create_container_request m)
upgrade_message (Message19.image_fs_info_response m) =
    Message112.image_fs_info_response (upgrade_image_fs_info_response m)
upgrade_message (Message19.list_container_stats_response m) =
    Message112.list_container_stats_response (upgrade_list_container_stats_response m)
upgrade_message (Message19.pod_sandbox_status_response m) =
    Message112.pod_sandbox_status_response (upgrade_pod_sandbox_status_response m)
upgrade_message (Message19.pull_image_request m) =
    Message112.pull_image_request (upgrade_pull_image_request m)
upgrade_message (Message19.run_pod_sandbox_request m) =
    Message112.run_pod_sandbox_request (upgrade_run_pod_sandbox_request m)

-- Those for the types of version 1.12; there is none for ReopenContainerLog.
unfoldable pub downgrade_message : Message112 → Option Message19
downgrade_message (Message112.same m) = some (Message19.same (convert_same cri19 m))
downgrade_message (Message112.container_stats_response m) =
    some (Message19.container_stats_response (downgrade_container_stats_response m))
downgrade_message (Message112.create_container_request m) =
    some (Message19.create_container_request (downgrade_create_container_request m))
downgrade_message (Message112.image_fs_info_response m) =
    some (Message19.image_fs_info_response (downgrade_image_fs_info_response m))
downgrade_message (Message112.list_container_stats_response m) =
    some (Message19.list_container_stats_response (downgrade_list_container_stats_response m))
downgrade_message (Message112.pod_sandbox_status_response m) =
    some (Message19.pod_sandbox_status_response (downgrade_pod_sandbox_status_response m))
downgrade_message (Message112.pull_image_request m) =
    some (Message19.pull_image_request (downgrade_pull_image_request m))
downgrade_message (Message112.run_pod_sandbox_request m) =
    some (Message19.run_pod_sandbox_request (downgrade_run_pod_sandbox_request m))
downgrade_message (Message112.reopen_container_log_request m) = none
downgrade_message Message112.reopen_container_log_response = none
