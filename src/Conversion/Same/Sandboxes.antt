-- ===== src/Conversion/Same/Sandboxes.antt =====
-- The messages about pod sandboxes, the same in both versions, and their conversions in both
-- directions (pkg/runtimeapis/v1_9/conversion_generated.go).
pub mod RoundTrip
use mathlib.Core.Option
use criproxy.Prelude.{ℤ, Bool, Option, List, map}
use criproxy.Text.{Text}
use criproxy.Naming.{Annotations}
use criproxy.Proxy.World.{Version}
use criproxy.Conversion.Same.Values.{PodSandboxMetadataOf, convert_pod_sandbox_metadata}

pub record PodSandboxOf (v : Version) : Type 0 where
  pub id : Text
  pub metadata : Option (PodSandboxMetadataOf v)
  pub state : ℤ
  pub created_at : ℤ
  pub labels : Annotations
  pub annotations : Annotations

unfoldable pub convert_pod_sandbox : {u : Version} (v : Version) → PodSandboxOf u → PodSandboxOf v
convert_pod_sandbox v m = record {
  id = m.id;
  metadata = Option.map (convert_pod_sandbox_metadata v) m.metadata;
  state = m.state;
  created_at = m.created_at;
  labels = m.labels;
  annotations = m.annotations;
}

pub record PodSandboxStateValueOf (v : Version) : Type 0 where
  pub state : ℤ

unfoldable pub convert_pod_sandbox_state_value :
    {u : Version} (v : Version) → PodSandboxStateValueOf u → PodSandboxStateValueOf v
convert_pod_sandbox_state_value v m = record { state = m.state }

pub record PodSandboxFilterOf (v : Version) : Type 0 where
  pub id : Text
  pub state : Option (PodSandboxStateValueOf v)
  pub label_selector : Annotations

unfoldable pub convert_pod_sandbox_filter :
    {u : Version} (v : Version) → PodSandboxFilterOf u → PodSandboxFilterOf v
convert_pod_sandbox_filter v m = record {
  id = m.id;
  state = Option.map (convert_pod_sandbox_state_value v) m.state;
  label_selector = m.label_selector;
}

pub record PodSandboxNetworkStatusOf (v : Version) : Type 0 where
  pub ip : Text

unfoldable pub convert_pod_sandbox_network_status :
    {u : Version} (v : Version) → PodSandboxNetworkStatusOf u → PodSandboxNetworkStatusOf v
convert_pod_sandbox_network_status v m = record { ip = m.ip }

pub record PodSandboxStatusRequestOf (v : Version) : Type 0 where
  pub pod_sandbox_id : Text
  pub verbose : Bool

unfoldable pub convert_pod_sandbox_status_request :
    {u : Version} (v : Version) → PodSandboxStatusRequestOf u → PodSandboxStatusRequestOf v
convert_pod_sandbox_status_request v m = record {
  pod_sandbox_id = m.pod_sandbox_id;
  verbose = m.verbose;
}

pub record ListPodSandboxRequestOf (v : Version) : Type 0 where
  pub filter : Option (PodSandboxFilterOf v)

unfoldable pub convert_list_pod_sandbox_request :
    {u : Version} (v : Version) → ListPodSandboxRequestOf u → ListPodSandboxRequestOf v
convert_list_pod_sandbox_request v m = record {
  filter = Option.map (convert_pod_sandbox_filter v) m.filter;
}

pub record ListPodSandboxResponseOf (v : Version) : Type 0 where
  pub items : List (PodSandboxOf v)

unfoldable pub convert_list_pod_sandbox_response :
    {u : Version} (v : Version) → ListPodSandboxResponseOf u → ListPodSandboxResponseOf v
convert_list_pod_sandbox_response v m = record { items = map (convert_pod_sandbox v) m.items }

pub record RunPodSandboxResponseOf (v : Version) : Type 0 where
  pub pod_sandbox_id : Text

unfoldable pub convert_run_pod_sandbox_response :
    {u : Version} (v : Version) → RunPodSandboxResponseOf u → RunPodSandboxResponseOf v
convert_run_pod_sandbox_response v m = record { pod_sandbox_id = m.pod_sandbox_id }

pub record StopPodSandboxRequestOf (v : Version) : Type 0 where
  pub pod_sandbox_id : Text

unfoldable pub convert_stop_pod_sandbox_request :
    {u : Version} (v : Version) → StopPodSandboxRequestOf u → StopPodSandboxRequestOf v
convert_stop_pod_sandbox_request v m = record { pod_sandbox_id = m.pod_sandbox_id }

pub data StopPodSandboxResponseOf (v : Version) : Type 0 where
  empty : StopPodSandboxResponseOf v

unfoldable pub convert_stop_pod_sandbox_response :
    {u : Version} (v : Version) → StopPodSandboxResponseOf u → StopPodSandboxResponseOf v
convert_stop_pod_sandbox_response v StopPodSandboxResponseOf.empty = StopPodSandboxResponseOf.empty

pub record RemovePodSandboxRequestOf (v : Version) : Type 0 where
  pub pod_sandbox_id : Text

unfoldable pub convert_remove_pod_sandbox_request :
    {u : Version} (v : Version) → RemovePodSandboxRequestOf u → RemovePodSandboxRequestOf v
convert_remove_pod_sandbox_request v m = record { pod_sandbox_id = m.pod_sandbox_id }

pub data RemovePodSandboxResponseOf (v : Version) : Type 0 where
  empty : RemovePodSandboxResponseOf v

unfoldable pub convert_remove_pod_sandbox_response :
    {u : Version} (v : Version) → RemovePodSandboxResponseOf u → RemovePodSandboxResponseOf v
convert_remove_pod_sandbox_response v RemovePodSandboxResponseOf.empty =
    RemovePodSandboxResponseOf.empty
