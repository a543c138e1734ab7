-- ===== src/Conversion/Same/Stats.antt =====
-- The messages about the resources that containers use, the same in both versions, and their conversions in both
-- directions (pkg/runtimeapis/v1_9/conversion_generated.go).
pub mod RoundTrip
use mathlib.Core.Option
use criproxy.Prelude.{ℤ, Option}
use criproxy.Text.{Text}
use criproxy.Naming.{Annotations}
use criproxy.Proxy.World.{Version}
use criproxy.Conversion.Same.Values.{
  Uint64ValueOf, convert_uint64_value, ContainerMetadataOf, convert_container_metadata,
}

pub record ContainerAttributesOf (v : Version) : Type 0 where
  pub id : Text
  pub metadata : Option (ContainerMetadataOf v)
  pub labels : Annotations
  pub annotations : Annotations

unfoldable pub convert_container_attributes :
    {u : Version} (v : Version) → ContainerAttributesOf u → ContainerAttributesOf v
convert_container_attributes v m = record {
  id = m.id;
  metadata = Option.map (convert_container_metadata v) m.metadata;
  labels = m.labels;
  annotations = m.annotations;
}

pub record ContainerStatsFilterOf (v : Version) : Type 0 where
  pub id : Text
  pub pod_sandbox_id : Text
  pub label_selector : Annotations

unfoldable pub convert_container_stats_filter :
    {u : Version} (v : Version) → ContainerStatsFilterOf u → ContainerStatsFilterOf v
convert_container_stats_filter v m = record {
  id = m.id;
  pod_sandbox_id = m.pod_sandbox_id;
  label_selector = m.label_selector;
}

pub record ContainerStatsRequestOf (v : Version) : Type 0 where
  pub container_id : Text

unfoldable pub convert_container_stats_request :
    {u : Version} (v : Version) → ContainerStatsRequestOf u → ContainerStatsRequestOf v
convert_container_stats_request v m = record { container_id = m.container_id }

pub record ListContainerStatsRequestOf (v : Version) : Type 0 where
  pub filter : Option (ContainerStatsFilterOf v)

unfoldable pub convert_list_container_stats_request :
    {u : Version} (v : Version) → ListContainerStatsRequestOf u → ListContainerStatsRequestOf v
convert_list_container_stats_request v m = record {
  filter = Option.map (convert_container_stats_filter v) m.filter;
}

pub record CpuUsageOf (v : Version) : Type 0 where
  pub timestamp : ℤ
  pub usage_core_nano_seconds : Option (Uint64ValueOf v)

unfoldable pub convert_cpu_usage : {u : Version} (v : Version) → CpuUsageOf u → CpuUsageOf v
convert_cpu_usage v m = record {
  timestamp = m.timestamp;
  usage_core_nano_seconds = Option.map (convert_uint64_value v) m.usage_core_nano_seconds;
}

pub record MemoryUsageOf (v : Version) : Type 0 where
  pub timestamp : ℤ
  pub working_set_bytes : Option (Uint64ValueOf v)

unfoldable pub convert_memory_usage :
    {u : Version} (v : Version) → MemoryUsageOf u → MemoryUsageOf v
convert_memory_usage v m = record {
  timestamp = m.timestamp;
  working_set_bytes = Option.map (convert_uint64_value v) m.working_set_bytes;
}
