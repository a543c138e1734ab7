-- ===== src/Conversion/Downgrade/Statuses.antt =====
-- Downgrade of pkg/runtimeapis/convert.go for statuses: Convert_v1_12_ and autoConvert_v1_12_ functions
-- of pkg/runtimeapis/v1_9/conversion.go and pkg/runtimeapis/v1_9/conversion_generated.go.
use mathlib.Core.Option
use criproxy.Prelude.{none, map}
use criproxy.Proxy.World.{cri19}
use criproxy.Conversion.Messages.Statuses.{
  FilesystemUsage19, FilesystemUsage112, ContainerStats19, ContainerStats112,
  ContainerStatsResponse19, ContainerStatsResponse112, ListContainerStatsResponse19,
  ListContainerStatsResponse112, ImageFsInfoResponse19, ImageFsInfoResponse112, Namespace19,
  Namespace112, LinuxPodSandboxStatus19, LinuxPodSandboxStatus112, PodSandboxStatus19,
  PodSandboxStatus112, PodSandboxStatusResponse19, PodSandboxStatusResponse112,
}
use criproxy.Conversion.Downgrade.{downgrade_namespace_option}
use criproxy.Conversion.Same.Values.{convert_uint64_value, convert_pod_sandbox_metadata}
use criproxy.Conversion.Same.Stats.{
  convert_container_attributes, convert_cpu_usage, convert_memory_usage,
}
use criproxy.Conversion.Same.Sandboxes.{convert_pod_sandbox_network_status}

unfoldable pub downgrade_filesystem_usage : FilesystemUsage112 → FilesystemUsage19
downgrade_filesystem_usage m = record {
  timestamp = m.timestamp;
  storage_id = none;
  used_bytes = Option.map (convert_uint64_value cri19) m.used_bytes;
  inodes_used = Option.map (convert_uint64_value cri19) m.inodes_used;
}

unfoldable pub downgrade_container_stats : ContainerStats112 → ContainerStats19
unfolding downgrade_filesystem_usage
downgrade_container_stats m = record {
  attributes = Option.map (convert_container_attributes cri19) m.attributes;
  cpu = Option.map (convert_cpu_usage cri19) m.cpu;
  memory = Option.map (convert_memory_usage cri19) m.memory;
  writable_layer = Option.map downgrade_filesystem_usage m.writable_layer;
}

unfoldable pub downgrade_container_stats_response :
    ContainerStatsResponse112 → ContainerStatsResponse19
unfolding downgrade_container_stats
downgrade_container_stats_response m = record {
  stats = Option.map downgrade_container_stats m.stats;
}

unfoldable pub downgrade_list_container_stats_response :
    ListContainerStatsResponse112 → ListContainerStatsResponse19
unfolding downgrade_container_stats
downgrade_list_container_stats_response m = record { stats = map downgrade_container_stats m.stats }

unfoldable pub downgrade_image_fs_info_response : ImageFsInfoResponse112 → ImageFsInfoResponse19
unfolding downgrade_filesystem_usage
downgrade_image_fs_info_response m = record {
  image_filesystems = map downgrade_filesystem_usage m.image_filesystems;
}

unfoldable pub downgrade_namespace : Namespace112 → Namespace19
unfolding downgrade_namespace_option
downgrade_namespace m = record { options = Option.map downgrade_namespace_option m.options }

unfoldable pub downgrade_linux_pod_sandbox_status :
    LinuxPodSandboxStatus112 → LinuxPodSandboxStatus19
unfolding downgrade_namespace
downgrade_linux_pod_sandbox_status m = record {
  namespaces = Option.map downgrade_namespace m.namespaces;
}

unfoldable pub downgrade_pod_sandbox_status : PodSandboxStatus112 → PodSandboxStatus19
unfolding downgrade_linux_pod_sandbox_status
downgrade_pod_sandbox_status m = record {
  id = m.id;
  metadata = Option.map (convert_pod_sandbox_metadata cri19) m.metadata;
  state = m.state;
  created_at = m.created_at;
  network = Option.map (convert_pod_sandbox_network_status cri19) m.network;
  linux = Option.map downgrade_linux_pod_sandbox_status m.linux;
  labels = m.labels;
  annotations = m.annotations;
}

unfoldable pub downgrade_pod_sandbox_status_response :
    PodSandboxStatusResponse112 → PodSandboxStatusResponse19
unfolding downgrade_pod_sandbox_status
downgrade_pod_sandbox_status_response m = record {
  status = Option.map downgrade_pod_sandbox_status m.status;
  info = m.info;
}
