-- ===== src/Conversion/Upgrade/Statuses.antt =====
-- Upgrade of pkg/runtimeapis/convert.go for statuses: Convert_v1_9_ and autoConvert_v1_9_ functions
-- of pkg/runtimeapis/v1_9/conversion.go and pkg/runtimeapis/v1_9/conversion_generated.go.
use mathlib.Core.Option
use criproxy.Prelude.{none, map}
use criproxy.Proxy.World.{cri112}
use criproxy.Conversion.Messages.Statuses.{
  FilesystemUsage19, FilesystemUsage112, ContainerStats19, ContainerStats112,
  ContainerStatsResponse19, ContainerStatsResponse112, ListContainerStatsResponse19,
  ListContainerStatsResponse112, ImageFsInfoResponse19, ImageFsInfoResponse112, Namespace19,
  Namespace112, LinuxPodSandboxStatus19, LinuxPodSandboxStatus112, PodSandboxStatus19,
  PodSandboxStatus112, PodSandboxStatusResponse19, PodSandboxStatusResponse112,
}
use criproxy.Conversion.Upgrade.{upgrade_namespace_option}
use criproxy.Conversion.Same.Values.{convert_uint64_value, convert_pod_sandbox_metadata}
use criproxy.Conversion.Same.Stats.{
  convert_container_attributes, convert_cpu_usage, convert_memory_usage,
}
use criproxy.Conversion.Same.Sandboxes.{convert_pod_sandbox_network_status}

unfoldable pub upgrade_filesystem_usage : FilesystemUsage19 → FilesystemUsage112
upgrade_filesystem_usage m = record {
  timestamp = m.timestamp;
  fs_id = none;
  used_bytes = Option.map (convert_uint64_value cri112) m.used_bytes;
  inodes_used = Option.map (convert_uint64_value cri112) m.inodes_used;
}

unfoldable pub upgrade_container_stats : ContainerStats19 → ContainerStats112
unfolding upgrade_filesystem_usage
upgrade_container_stats m = record {
  attributes = Option.map (convert_container_attributes cri112) m.attributes;
  cpu = Option.map (convert_cpu_usage cri112) m.cpu;
  memory = Option.map (convert_memory_usage cri112) m.memory;
  writable_layer = Option.map upgrade_filesystem_usage m.writable_layer;
}

unfoldable pub upgrade_container_stats_response :
    ContainerStatsResponse19 → ContainerStatsResponse112
unfolding upgrade_container_stats
upgrade_container_stats_response m = record { stats = Option.map upgrade_container_stats m.stats }

unfoldable pub upgrade_list_container_stats_response :
    ListContainerStatsResponse19 → ListContainerStatsResponse112
unfolding upgrade_container_stats
upgrade_list_container_stats_response m = record { stats = map upgrade_container_stats m.stats }

unfoldable pub upgrade_image_fs_info_response : ImageFsInfoResponse19 → ImageFsInfoResponse112
unfolding upgrade_filesystem_usage
upgrade_image_fs_info_response m = record {
  image_filesystems = map upgrade_filesystem_usage m.image_filesystems;
}

unfoldable pub upgrade_namespace : Namespace19 → Namespace112
unfolding upgrade_namespace_option
upgrade_namespace m = record { options = Option.map upgrade_namespace_option m.options }

unfoldable pub upgrade_linux_pod_sandbox_status : LinuxPodSandboxStatus19 → LinuxPodSandboxStatus112
unfolding upgrade_namespace
upgrade_linux_pod_sandbox_status m = record {
  namespaces = Option.map upgrade_namespace m.namespaces;
}

unfoldable pub upgrade_pod_sandbox_status : PodSandboxStatus19 → PodSandboxStatus112
unfolding upgrade_linux_pod_sandbox_status
upgrade_pod_sandbox_status m = record {
  id = m.id;
  metadata = Option.map (convert_pod_sandbox_metadata cri112) m.metadata;
  state = m.state;
  created_at = m.created_at;
  network = Option.map (convert_pod_sandbox_network_status cri112) m.network;
  linux = Option.map upgrade_linux_pod_sandbox_status m.linux;
  labels = m.labels;
  annotations = m.annotations;
}

unfoldable pub upgrade_pod_sandbox_status_response :
    PodSandboxStatusResponse19 → PodSandboxStatusResponse112
unfolding upgrade_pod_sandbox_status
upgrade_pod_sandbox_status_response m = record {
  status = Option.map upgrade_pod_sandbox_status m.status;
  info = m.info;
}
