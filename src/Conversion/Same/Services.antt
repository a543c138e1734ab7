-- ===== src/Conversion/Same/Services.antt =====
-- The messages about the runtime itself, the same in both versions, and their conversions in both
-- directions (pkg/runtimeapis/v1_9/conversion_generated.go).
pub mod RoundTrip
use mathlib.Core.Option
use criproxy.Prelude.{Bool, Option, List, map}
use criproxy.Text.{Text}
use criproxy.Naming.{Annotations}
use criproxy.Proxy.World.{Version}

pub record VersionRequestOf (v : Version) : Type 0 where
  pub version : Text

unfoldable pub convert_version_request :
    {u : Version} (v : Version) → VersionRequestOf u → VersionRequestOf v
convert_version_request v m = record { version = m.version }

pub record VersionResponseOf (v : Version) : Type 0 where
  pub version : Text
  pub runtime_name : Text
  pub runtime_version : Text
  pub runtime_api_version : Text

unfoldable pub convert_version_response :
    {u : Version} (v : Version) → VersionResponseOf u → VersionResponseOf v
convert_version_response v m = record {
  version = m.version;
  runtime_name = m.runtime_name;
  runtime_version = m.runtime_version;
  runtime_api_version = m.runtime_api_version;
}

pub record NetworkConfigOf (v : Version) : Type 0 where
  pub pod_cidr : Text

unfoldable pub convert_network_config :
    {u : Version} (v : Version) → NetworkConfigOf u → NetworkConfigOf v
convert_network_config v m = record { pod_cidr = m.pod_cidr }

pub record RuntimeConfigOf (v : Version) : Type 0 where
  pub network_config : Option (NetworkConfigOf v)

unfoldable pub convert_runtime_config :
    {u : Version} (v : Version) → RuntimeConfigOf u → RuntimeConfigOf v
convert_runtime_config v m = record {
  network_config = Option.map (convert_network_config v) m.network_config;
}

pub record UpdateRuntimeConfigRequestOf (v : Version) : Type 0 where
  pub runtime_config : Option (RuntimeConfigOf v)

unfoldable pub convert_update_runtime_config_request :
    {u : Version} (v : Version) → UpdateRuntimeConfigRequestOf u → UpdateRuntimeConfigRequestOf v
convert_update_runtime_config_request v m = record {
  runtime_config = Option.map (convert_runtime_config v) m.runtime_config;
}

pub data UpdateRuntimeConfigResponseOf (v : Version) : Type 0 where
  empty : UpdateRuntimeConfigResponseOf v

unfoldable pub convert_update_runtime_config_response :
    {u : Version} (v : Version) → UpdateRuntimeConfigResponseOf u → UpdateRuntimeConfigResponseOf v
convert_update_runtime_config_response v UpdateRuntimeConfigResponseOf.empty =
    UpdateRuntimeConfigResponseOf.empty

pub record RuntimeConditionOf (v : Version) : Type 0 where
  pub type : Text
  pub status : Bool
  pub reason : Text
  pub message : Text

unfoldable pub convert_runtime_condition :
    {u : Version} (v : Version) → RuntimeConditionOf u → RuntimeConditionOf v
convert_runtime_condition v m = record {
  type = m.type;
  status = m.status;
  reason = m.reason;
  message = m.message;
}

pub record RuntimeStatusOf (v : Version) : Type 0 where
  pub conditions : List (RuntimeConditionOf v)

unfoldable pub convert_runtime_status :
    {u : Version} (v : Version) → RuntimeStatusOf u → RuntimeStatusOf v
convert_runtime_status v m = record { conditions = map (convert_runtime_condition v) m.conditions }

pub record StatusRequestOf (v : Version) : Type 0 where
  pub verbose : Bool

unfoldable pub convert_status_request :
    {u : Version} (v : Version) → StatusRequestOf u → StatusRequestOf v
convert_status_request v m = record { verbose = m.verbose }

pub record StatusResponseOf (v : Version) : Type 0 where
  pub status : Option (RuntimeStatusOf v)
  pub info : Annotations

unfoldable pub convert_status_response :
    {u : Version} (v : Version) → StatusResponseOf u → StatusResponseOf v
convert_status_response v m = record {
  status = Option.map (convert_runtime_status v) m.status;
  info = m.info;
}
