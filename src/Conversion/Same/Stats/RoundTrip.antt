-- ===== src/Conversion/Same/Stats/RoundTrip.antt =====
-- The messages about the resources that containers use come back from a conversion there and back.
use criproxy.Prelude.{◌≡◌, refl}
use criproxy.Conversion.Paths.{map-map}
use criproxy.Proxy.World.{Version}
use criproxy.Conversion.Same.Values.{convert_uint64_value, convert_container_metadata}
use criproxy.Conversion.Same.Stats.{
  ContainerAttributesOf, convert_container_attributes, ContainerStatsFilterOf,
  convert_container_stats_filter, ContainerStatsRequestOf, convert_container_stats_request,
  ListContainerStatsRequestOf, convert_list_container_stats_request, CpuUsageOf, convert_cpu_usage,
  MemoryUsageOf, convert_memory_usage,
}
use criproxy.Conversion.Same.Values.RoundTrip.{
  convert_uint64_value-convert, convert_container_metadata-convert,
}

pub convert_container_attributes-convert :
    {u : Version} (v : Version) (m : ContainerAttributesOf u)
    → convert_container_attributes u (convert_container_attributes v m) ≡ m
unfolding convert_container_attributes
convert_container_attributes-convert {u} v m = λ i. record m {
  metadata =
      map-map (convert_container_metadata v) (convert_container_metadata u) m.metadata
        (convert_container_metadata-convert v) i;
}

pub convert_container_stats_filter-convert :
    {u : Version} (v : Version) (m : ContainerStatsFilterOf u)
    → convert_container_stats_filter u (convert_container_stats_filter v m) ≡ m
unfolding convert_container_stats_filter
convert_container_stats_filter-convert v m = refl

pub convert_container_stats_request-convert :
    {u : Version} (v : Version) (m : ContainerStatsRequestOf u)
    → convert_container_stats_request u (convert_container_stats_request v m) ≡ m
unfolding convert_container_stats_request
convert_container_stats_request-convert v m = refl

pub convert_list_container_stats_request-convert :
    {u : Version} (v : Version) (m : ListContainerStatsRequestOf u)
    → convert_list_container_stats_request u (convert_list_container_stats_request v m) ≡ m
unfolding convert_list_container_stats_request
convert_list_container_stats_request-convert {u} v m = λ i. record m {
  filter =
      map-map (convert_container_stats_filter v) (convert_container_stats_filter u) m.filter
        (convert_container_stats_filter-convert v) i;
}

pub convert_cpu_usage-convert :
    {u : Version} (v : Version) (m : CpuUsageOf u) → convert_cpu_usage u (convert_cpu_usage v m) ≡ m
unfolding convert_cpu_usage
convert_cpu_usage-convert {u} v m = λ i. record m {
  usage_core_nano_seconds =
      map-map (convert_uint64_value v) (convert_uint64_value u) m.usage_core_nano_seconds
        (convert_uint64_value-convert v) i;
}

pub convert_memory_usage-convert :
    {u : Version} (v : Version) (m : MemoryUsageOf u)
    → convert_memory_usage u (convert_memory_usage v m) ≡ m
unfolding convert_memory_usage
convert_memory_usage-convert {u} v m = λ i. record m {
  working_set_bytes =
      map-map (convert_uint64_value v) (convert_uint64_value u) m.working_set_bytes
        (convert_uint64_value-convert v) i;
}
