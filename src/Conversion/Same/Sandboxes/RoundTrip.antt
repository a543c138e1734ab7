-- ===== src/Conversion/Same/Sandboxes/RoundTrip.antt =====
-- The messages about pod sandboxes come back from a conversion there and back.
use criproxy.Prelude.{◌≡◌, refl}
use criproxy.Conversion.Paths.{map-map, list_map-map}
use criproxy.Proxy.World.{Version}
use criproxy.Conversion.Same.Values.{convert_pod_sandbox_metadata}
use criproxy.Conversion.Same.Sandboxes.{
  PodSandboxOf, convert_pod_sandbox, PodSandboxStateValueOf, convert_pod_sandbox_state_value,
  PodSandboxFilterOf, convert_pod_sandbox_filter, PodSandboxNetworkStatusOf,
  convert_pod_sandbox_network_status, PodSandboxStatusRequestOf, convert_pod_sandbox_status_request,
  ListPodSandboxRequestOf, convert_list_pod_sandbox_request, ListPodSandboxResponseOf,
  convert_list_pod_sandbox_response, RunPodSandboxResponseOf, convert_run_pod_sandbox_response,
  StopPodSandboxRequestOf, convert_stop_pod_sandbox_request, StopPodSandboxResponseOf,
  convert_stop_pod_sandbox_response, RemovePodSandboxRequestOf, convert_remove_pod_sandbox_request,
  RemovePodSandboxResponseOf, convert_remove_pod_sandbox_response,
}
use criproxy.Conversion.Same.Values.RoundTrip.{convert_pod_sandbox_metadata-convert}

pub convert_pod_sandbox-convert :
    {u : Version} (v : Version) (m : PodSandboxOf u)
    → convert_pod_sandbox u (convert_pod_sandbox v m) ≡ m
unfolding convert_pod_sandbox
convert_pod_sandbox-convert {u} v m = λ i. record m {
  metadata =
      map-map (convert_pod_sandbox_metadata v) (convert_pod_sandbox_metadata u) m.metadata
        (convert_pod_sandbox_metadata-convert v) i;
}

pub convert_pod_sandbox_state_value-convert :
    {u : Version} (v : Version) (m : PodSandboxStateValueOf u)
    → convert_pod_sandbox_state_value u (convert_pod_sandbox_state_value v m) ≡ m
unfolding convert_pod_sandbox_state_value
convert_pod_sandbox_state_value-convert v m = refl

pub convert_pod_sandbox_filter-convert :
    {u : Version} (v : Version) (m : PodSandboxFilterOf u)
    → convert_pod_sandbox_filter u (convert_pod_sandbox_filter v m) ≡ m
unfolding convert_pod_sandbox_filter
convert_pod_sandbox_filter-convert {u} v m = λ i. record m {
  state =
      map-map (convert_pod_sandbox_state_value v) (convert_pod_sandbox_state_value u) m.state
        (convert_pod_sandbox_state_value-convert v) i;
}

pub convert_pod_sandbox_network_status-convert :
    {u : Version} (v : Version) (m : PodSandboxNetworkStatusOf u)
    → convert_pod_sandbox_network_status u (convert_pod_sandbox_network_status v m) ≡ m
unfolding convert_pod_sandbox_network_status
convert_pod_sandbox_network_status-convert v m = refl

pub convert_pod_sandbox_status_request-convert :
    {u : Version} (v : Version) (m : PodSandboxStatusRequestOf u)
    → convert_pod_sandbox_status_request u (convert_pod_sandbox_status_request v m) ≡ m
unfolding convert_pod_sandbox_status_request
convert_pod_sandbox_status_request-convert v m = refl

pub convert_list_pod_sandbox_request-convert :
    {u : Version} (v : Version) (m : ListPodSandboxRequestOf u)
    → convert_list_pod_sandbox_request u (convert_list_pod_sandbox_request v m) ≡ m
unfolding convert_list_pod_sandbox_request
convert_list_pod_sandbox_request-convert {u} v m = λ i. record m {
  filter =
      map-map (convert_pod_sandbox_filter v) (convert_pod_sandbox_filter u) m.filter
        (convert_pod_sandbox_filter-convert v) i;
}

pub convert_list_pod_sandbox_response-convert :
    {u : Version} (v : Version) (m : ListPodSandboxResponseOf u)
    → convert_list_pod_sandbox_response u (convert_list_pod_sandbox_response v m) ≡ m
unfolding convert_list_pod_sandbox_response
convert_list_pod_sandbox_response-convert {u} v m = λ i. record m {
  items =
      list_map-map (convert_pod_sandbox v) (convert_pod_sandbox u) m.items
        (convert_pod_sandbox-convert v) i;
}

pub convert_run_pod_sandbox_response-convert :
    {u : Version} (v : Version) (m : RunPodSandboxResponseOf u)
    → convert_run_pod_sandbox_response u (convert_run_pod_sandbox_response v m) ≡ m
unfolding convert_run_pod_sandbox_response
convert_run_pod_sandbox_response-convert v m = refl

pub convert_stop_pod_sandbox_request-convert :
    {u : Version} (v : Version) (m : StopPodSandboxRequestOf u)
    → convert_stop_pod_sandbox_request u (convert_stop_pod_sandbox_request v m) ≡ m
unfolding convert_stop_pod_sandbox_request
convert_stop_pod_sandbox_request-convert v m = refl

pub convert_stop_pod_sandbox_response-convert :
    {u : Version} (v : Version) (m : StopPodSandboxResponseOf u)
    → convert_stop_pod_sandbox_response u (convert_stop_pod_sandbox_response v m) ≡ m
unfolding convert_stop_pod_sandbox_response
convert_stop_pod_sandbox_response-convert v StopPodSandboxResponseOf.empty = refl

pub convert_remove_pod_sandbox_request-convert :
    {u : Version} (v : Version) (m : RemovePodSandboxRequestOf u)
    → convert_remove_pod_sandbox_request u (convert_remove_pod_sandbox_request v m) ≡ m
unfolding convert_remove_pod_sandbox_request
convert_remove_pod_sandbox_request-convert v m = refl

pub convert_remove_pod_sandbox_response-convert :
    {u : Version} (v : Version) (m : RemovePodSandboxResponseOf u)
    → convert_remove_pod_sandbox_response u (convert_remove_pod_sandbox_response v m) ≡ m
unfolding convert_remove_pod_sandbox_response
convert_remove_pod_sandbox_response-convert v RemovePodSandboxResponseOf.empty = refl
