-- ===== src/Conversion/Loss/Stats.antt =====
-- Which statistics of version 1.12 are what they were when they are downgraded and upgraded again.
use criproxy.Prelude.{none, ◌≡◌, ap, sym, ◌↔◌, All}
use criproxy.Proxy.World.{cri19, cri112}
use criproxy.Conversion.Messages.Statuses.{
  FilesystemUsage112, ContainerStats112, ContainerStatsResponse112, ListContainerStatsResponse112,
  ImageFsInfoResponse112,
}
use criproxy.Conversion.Upgrade.Statuses.{
  upgrade_filesystem_usage, upgrade_container_stats, upgrade_container_stats_response,
  upgrade_list_container_stats_response, upgrade_image_fs_info_response,
}
use criproxy.Conversion.Downgrade.Statuses.{
  downgrade_filesystem_usage, downgrade_container_stats, downgrade_container_stats_response,
  downgrade_list_container_stats_response, downgrade_image_fs_info_response,
}
use criproxy.Conversion.Paths.{IfThere, map-map, map-map_iff, list_map-map_iff}
use criproxy.Conversion.Same.Values.{convert_uint64_value}
use criproxy.Conversion.Same.Stats.{
  convert_container_attributes, convert_cpu_usage, convert_memory_usage,
}
use criproxy.Conversion.Same.Values.RoundTrip.{convert_uint64_value-convert}
use criproxy.Conversion.Same.Stats.RoundTrip.{
  convert_container_attributes-convert, convert_cpu_usage-convert, convert_memory_usage-convert,
}

abbrev pub UsageIsOld : FilesystemUsage112 → Type 0
UsageIsOld m = m.fs_id ≡ none

pub filesystem_usage_iff :
    (m : FilesystemUsage112)
    → (upgrade_filesystem_usage (downgrade_filesystem_usage m) ≡ m) ↔ UsageIsOld m
unfolding upgrade_filesystem_usage downgrade_filesystem_usage
filesystem_usage_iff m = (
  λ e. sym (ap (λ x. x.fs_id) e),
  λ k. λ i. record m {
    fs_id = sym k i;
    used_bytes =
        map-map (convert_uint64_value cri19) (convert_uint64_value cri112) m.used_bytes
          (convert_uint64_value-convert cri19) i;
    inodes_used =
        map-map (convert_uint64_value cri19) (convert_uint64_value cri112) m.inodes_used
          (convert_uint64_value-convert cri19) i;
  },
)

abbrev pub StatsAreOld : ContainerStats112 → Type 0
StatsAreOld m = IfThere UsageIsOld m.writable_layer

pub container_stats_iff :
    (m : ContainerStats112)
    → (upgrade_container_stats (downgrade_container_stats m) ≡ m) ↔ StatsAreOld m
unfolding upgrade_container_stats downgrade_container_stats
container_stats_iff m = (
  λ e.
      (map-map_iff downgrade_filesystem_usage upgrade_filesystem_usage UsageIsOld m.writable_layer
          filesystem_usage_iff).0
        (ap (λ x. x.writable_layer) e),
  λ k. λ i. record m {
    writable_layer =
        (map-map_iff downgrade_filesystem_usage upgrade_filesystem_usage UsageIsOld m.writable_layer
            filesystem_usage_iff).1
          k i;
    attributes =
        map-map (convert_container_attributes cri19) (convert_container_attributes cri112)
          m.attributes (convert_container_attributes-convert cri19) i;
    cpu =
        map-map (convert_cpu_usage cri19) (convert_cpu_usage cri112) m.cpu
          (convert_cpu_usage-convert cri19) i;
    memory =
        map-map (convert_memory_usage cri19) (convert_memory_usage cri112) m.memory
          (convert_memory_usage-convert cri19) i;
  },
)

abbrev pub StatsResponseIsOld : ContainerStatsResponse112 → Type 0
StatsResponseIsOld m = IfThere StatsAreOld m.stats

pub container_stats_response_iff :
    (m : ContainerStatsResponse112)
    → (upgrade_container_stats_response (downgrade_container_stats_response m) ≡ m)
      ↔ StatsResponseIsOld m
unfolding upgrade_container_stats_response downgrade_container_stats_response
container_stats_response_iff m = (
  λ e.
      (map-map_iff downgrade_container_stats upgrade_container_stats StatsAreOld m.stats
          container_stats_iff).0
        (ap (λ x. x.stats) e),
  λ k. λ i. record m {
    stats =
        (map-map_iff downgrade_container_stats upgrade_container_stats StatsAreOld m.stats
            container_stats_iff).1
          k i;
  },
)

abbrev pub StatsListIsOld : ListContainerStatsResponse112 → Type 0
StatsListIsOld m = All StatsAreOld m.stats

pub list_container_stats_response_iff :
    (m : ListContainerStatsResponse112)
    → (upgrade_list_container_stats_response (downgrade_list_container_stats_response m) ≡ m)
      ↔ StatsListIsOld m
unfolding upgrade_list_container_stats_response downgrade_list_container_stats_response
list_container_stats_response_iff m = (
  λ e.
      (list_map-map_iff downgrade_container_stats upgrade_container_stats StatsAreOld m.stats
          container_stats_iff).0
        (ap (λ x. x.stats) e),
  λ k. λ i. record m {
    stats =
        (list_map-map_iff downgrade_container_stats upgrade_container_stats StatsAreOld m.stats
            container_stats_iff).1
          k i;
  },
)

abbrev pub FsInfoIsOld : ImageFsInfoResponse112 → Type 0
FsInfoIsOld m = All UsageIsOld m.image_filesystems

pub image_fs_info_response_iff :
    (m : ImageFsInfoResponse112)
    → (upgrade_image_fs_info_response (downgrade_image_fs_info_response m) ≡ m) ↔ FsInfoIsOld m
unfolding upgrade_image_fs_info_response downgrade_image_fs_info_response
image_fs_info_response_iff m = (
  λ e.
      (list_map-map_iff downgrade_filesystem_usage upgrade_filesystem_usage UsageIsOld
          m.image_filesystems filesystem_usage_iff).0
        (ap (λ x. x.image_filesystems) e),
  λ k. λ i. record m {
    image_filesystems =
        (list_map-map_iff downgrade_filesystem_usage upgrade_filesystem_usage UsageIsOld
            m.image_filesystems filesystem_usage_iff).1
          k i;
  },
)
