-- ===== src/Conversion/RoundTrip/Statuses.antt =====
-- Which statuses of version 1.9 are what they were when they are upgraded and downgraded again.
use criproxy.Prelude.{none, ◌≡◌, ap, sym, ◌↔◌, All}
use criproxy.Proxy.World.{cri19, cri112}
use criproxy.Conversion.Messages.Statuses.{
  FilesystemUsage19, ContainerStats19, ContainerStatsResponse19, ListContainerStatsResponse19,
  ImageFsInfoResponse19, Namespace19, LinuxPodSandboxStatus19, PodSandboxStatus19,
  PodSandboxStatusResponse19,
}
use criproxy.Conversion.Upgrade.{upgrade_namespace_option}
use criproxy.Conversion.Upgrade.Statuses.{
  upgrade_filesystem_usage, upgrade_container_stats, upgrade_container_stats_response,
  upgrade_list_container_stats_response, upgrade_image_fs_info_response, upgrade_namespace,
  upgrade_linux_pod_sandbox_status, upgrade_pod_sandbox_status, upgrade_pod_sandbox_status_response,
}
use criproxy.Conversion.Downgrade.{downgrade_namespace_option}
use criproxy.Conversion.Downgrade.Statuses.{
  downgrade_filesystem_usage, downgrade_container_stats, downgrade_container_stats_response,
  downgrade_list_container_stats_response, downgrade_image_fs_info_response, downgrade_namespace,
  downgrade_linux_pod_sandbox_status, downgrade_pod_sandbox_status,
  downgrade_pod_sandbox_status_response,
}
use criproxy.Conversion.Paths.{IfThere, map-map, map-map_iff, list_map-map_iff}
use criproxy.Conversion.RoundTrip.{downgrade_namespace_option-upgrade}
use criproxy.Conversion.Same.Values.{convert_uint64_value, convert_pod_sandbox_metadata}
use criproxy.Conversion.Same.Stats.{
  convert_container_attributes, convert_cpu_usage, convert_memory_usage,
}
use criproxy.Conversion.Same.Sandboxes.{convert_pod_sandbox_network_status}
use criproxy.Conversion.Same.Values.RoundTrip.{
  convert_uint64_value-convert, convert_pod_sandbox_metadata-convert,
}
use criproxy.Conversion.Same.Stats.RoundTrip.{
  convert_container_attributes-convert, convert_cpu_usage-convert, convert_memory_usage-convert,
}
use criproxy.Conversion.Same.Sandboxes.RoundTrip.{convert_pod_sandbox_network_status-convert}

abbrev pub UsageHasNoStorage : FilesystemUsage19 → Type 0
UsageHasNoStorage m = m.storage_id ≡ none

pub filesystem_usage_storage_iff :
    (m : FilesystemUsage19)
    → (downgrade_filesystem_usage (upgrade_filesystem_usage m) ≡ m) ↔ UsageHasNoStorage m
unfolding downgrade_filesystem_usage upgrade_filesystem_usage
filesystem_usage_storage_iff m = (
  λ e. sym (ap (λ x. x.storage_id) e),
  λ k. λ i. record m {
    storage_id = sym k i;
    used_bytes =
        map-map (convert_uint64_value cri112) (convert_uint64_value cri19) m.used_bytes
          (convert_uint64_value-convert cri112) i;
    inodes_used =
        map-map (convert_uint64_value cri112) (convert_uint64_value cri19) m.inodes_used
          (convert_uint64_value-convert cri112) i;
  },
)

abbrev pub StatsHaveNoStorage : ContainerStats19 → Type 0
StatsHaveNoStorage m = IfThere UsageHasNoStorage m.writable_layer

pub container_stats_storage_iff :
    (m : ContainerStats19)
    → (downgrade_container_stats (upgrade_container_stats m) ≡ m) ↔ StatsHaveNoStorage m
unfolding downgrade_container_stats upgrade_container_stats
container_stats_storage_iff m = (
  λ e.
      (map-map_iff upgrade_filesystem_usage downgrade_filesystem_usage UsageHasNoStorage
          m.writable_layer filesystem_usage_storage_iff).0
        (ap (λ x. x.writable_layer) e),
  λ k. λ i. record m {
    writable_layer =
        (map-map_iff upgrade_filesystem_usage downgrade_filesystem_usage UsageHasNoStorage
            m.writable_layer filesystem_usage_storage_iff).1
          k i;
    attributes =
        map-map (convert_container_attributes cri112) (convert_container_attributes cri19)
          m.attributes (convert_container_attributes-convert cri112) i;
    cpu =
        map-map (convert_cpu_usage cri112) (convert_cpu_usage cri19) m.cpu
          (convert_cpu_usage-convert cri112) i;
    memory =
        map-map (convert_memory_usage cri112) (convert_memory_usage cri19) m.memory
          (convert_memory_usage-convert cri112) i;
  },
)

abbrev pub StatsResponseHasNoStorage : ContainerStatsResponse19 → Type 0
StatsResponseHasNoStorage m = IfThere StatsHaveNoStorage m.stats

pub container_stats_response_storage_iff :
    (m : ContainerStatsResponse19)
    → (downgrade_container_stats_response (upgrade_container_stats_response m) ≡ m)
      ↔ StatsResponseHasNoStorage m
unfolding downgrade_container_stats_response upgrade_container_stats_response
container_stats_response_storage_iff m = (
  λ e.
      (map-map_iff upgrade_container_stats downgrade_container_stats StatsHaveNoStorage m.stats
          container_stats_storage_iff).0
        (ap (λ x. x.stats) e),
  λ k. λ i. record m {
    stats =
        (map-map_iff upgrade_container_stats downgrade_container_stats StatsHaveNoStorage m.stats
            container_stats_storage_iff).1
          k i;
  },
)

abbrev pub StatsListHasNoStorage : ListContainerStatsResponse19 → Type 0
StatsListHasNoStorage m = All StatsHaveNoStorage m.stats

pub list_container_stats_response_storage_iff :
    (m : ListContainerStatsResponse19)
    → (downgrade_list_container_stats_response (upgrade_list_container_stats_response m) ≡ m)
      ↔ StatsListHasNoStorage m
unfolding downgrade_list_container_stats_response upgrade_list_container_stats_response
list_container_stats_response_storage_iff m = (
  λ e.
      (list_map-map_iff upgrade_container_stats downgrade_container_stats StatsHaveNoStorage m.stats
          container_stats_storage_iff).0
        (ap (λ x. x.stats) e),
  λ k. λ i. record m {
    stats =
        (list_map-map_iff upgrade_container_stats downgrade_container_stats StatsHaveNoStorage
            m.stats container_stats_storage_iff).1
          k i;
  },
)

abbrev pub FsInfoHasNoStorage : ImageFsInfoResponse19 → Type 0
FsInfoHasNoStorage m = All UsageHasNoStorage m.image_filesystems

pub image_fs_info_response_storage_iff :
    (m : ImageFsInfoResponse19)
    → (downgrade_image_fs_info_response (upgrade_image_fs_info_response m) ≡ m)
      ↔ FsInfoHasNoStorage m
unfolding downgrade_image_fs_info_response upgrade_image_fs_info_response
image_fs_info_response_storage_iff m = (
  λ e.
      (list_map-map_iff upgrade_filesystem_usage downgrade_filesystem_usage UsageHasNoStorage
          m.image_filesystems filesystem_usage_storage_iff).0
        (ap (λ x. x.image_filesystems) e),
  λ k. λ i. record m {
    image_filesystems =
        (list_map-map_iff upgrade_filesystem_usage downgrade_filesystem_usage UsageHasNoStorage
            m.image_filesystems filesystem_usage_storage_iff).1
          k i;
  },
)

pub downgrade_namespace-upgrade : (m : Namespace19) → downgrade_namespace (upgrade_namespace m) ≡ m
unfolding downgrade_namespace upgrade_namespace
downgrade_namespace-upgrade m = λ i. record m {
  options =
      map-map upgrade_namespace_option downgrade_namespace_option m.options
        downgrade_namespace_option-upgrade i;
}

pub downgrade_linux_pod_sandbox_status-upgrade :
    (m : LinuxPodSandboxStatus19)
    → downgrade_linux_pod_sandbox_status (upgrade_linux_pod_sandbox_status m) ≡ m
unfolding downgrade_linux_pod_sandbox_status upgrade_linux_pod_sandbox_status
downgrade_linux_pod_sandbox_status-upgrade m = λ i. record m {
  namespaces =
      map-map upgrade_namespace downgrade_namespace m.namespaces downgrade_namespace-upgrade i;
}

pub downgrade_pod_sandbox_status-upgrade :
    (m : PodSandboxStatus19) → downgrade_pod_sandbox_status (upgrade_pod_sandbox_status m) ≡ m
unfolding downgrade_pod_sandbox_status upgrade_pod_sandbox_status
downgrade_pod_sandbox_status-upgrade m = λ i. record m {
  metadata =
      map-map (convert_pod_sandbox_metadata cri112) (convert_pod_sandbox_metadata cri19) m.metadata
        (convert_pod_sandbox_metadata-convert cri112) i;
  network =
      map-map (convert_pod_sandbox_network_status cri112) (convert_pod_sandbox_network_status cri19)
        m.network (convert_pod_sandbox_network_status-convert cri112) i;
  linux =
      map-map upgrade_linux_pod_sandbox_status downgrade_linux_pod_sandbox_status m.linux
        downgrade_linux_pod_sandbox_status-upgrade i;
}

pub downgrade_pod_sandbox_status_response-upgrade :
    (m : PodSandboxStatusResponse19)
    → downgrade_pod_sandbox_status_response (upgrade_pod_sandbox_status_response m) ≡ m
unfolding downgrade_pod_sandbox_status_response upgrade_pod_sandbox_status_response
downgrade_pod_sandbox_status_response-upgrade m = λ i. record m {
  status =
      map-map upgrade_pod_sandbox_status downgrade_pod_sandbox_status m.status
        downgrade_pod_sandbox_status-upgrade i;
}
