-- ===== src/Conversion/Same/Services/RoundTrip.antt =====
-- The messages about the runtime itself come back from a conversion there and back.
use criproxy.Prelude.{◌≡◌, refl}
use criproxy.Conversion.Paths.{map-map, list_map-map}
use criproxy.Proxy.World.{Version}
use criproxy.Conversion.Same.Services.{
  VersionRequestOf, convert_version_request, VersionResponseOf, convert_version_response,
  NetworkConfigOf, convert_network_config, RuntimeConfigOf, convert_runtime_config,
  UpdateRuntimeConfigRequestOf, convert_update_runtime_config_request,
  UpdateRuntimeConfigResponseOf, convert_update_runtime_config_response, RuntimeConditionOf,
  convert_runtime_condition, RuntimeStatusOf, convert_runtime_status, StatusRequestOf,
  convert_status_request, StatusResponseOf, convert_status_response,
}

pub convert_version_request-convert :
    {u : Version} (v : Version) (m : VersionRequestOf u)
    → convert_version_request u (convert_version_request v m) ≡ m
unfolding convert_version_request
convert_version_request-convert v m = refl

pub convert_version_response-convert :
    {u : Version} (v : Version) (m : VersionResponseOf u)
    → convert_version_response u (convert_version_response v m) ≡ m
unfolding convert_version_response
convert_version_response-convert v m = refl

pub convert_network_config-convert :
    {u : Version} (v : Version) (m : NetworkConfigOf u)
    → convert_network_config u (convert_network_config v m) ≡ m
unfolding convert_network_config
convert_network_config-convert v m = refl

pub convert_runtime_config-convert :
    {u : Version} (v : Version) (m : RuntimeConfigOf u)
    → convert_runtime_config u (convert_runtime_config v m) ≡ m
unfolding convert_runtime_config
convert_runtime_config-convert {u} v m = λ i. record m {
  network_config =
      map-map (convert_network_config v) (convert_network_config u) m.network_config
        (convert_network_config-convert v) i;
}

pub convert_update_runtime_config_request-convert :
    {u : Version} (v : Version) (m : UpdateRuntimeConfigRequestOf u)
    → convert_update_runtime_config_request u (convert_update_runtime_config_request v m) ≡ m
unfolding convert_update_runtime_config_request
convert_update_runtime_config_request-convert {u} v m = λ i. record m {
  runtime_config =
      map-map (convert_runtime_config v) (convert_runtime_config u) m.runtime_config
        (convert_runtime_config-convert v) i;
}

pub convert_update_runtime_config_response-convert :
    {u : Version} (v : Version) (m : UpdateRuntimeConfigResponseOf u)
    → convert_update_runtime_config_response u (convert_update_runtime_config_response v m) ≡ m
unfolding convert_update_runtime_config_response
convert_update_runtime_config_response-convert v UpdateRuntimeConfigResponseOf.empty = refl

pub convert_runtime_condition-convert :
    {u : Version} (v : Version) (m : RuntimeConditionOf u)
    → convert_runtime_condition u (convert_runtime_condition v m) ≡ m
unfolding convert_runtime_condition
convert_runtime_condition-convert v m = refl

pub convert_runtime_status-convert :
    {u : Version} (v : Version) (m : RuntimeStatusOf u)
    → convert_runtime_status u (convert_runtime_status v m) ≡ m
unfolding convert_runtime_status
convert_runtime_status-convert {u} v m = λ i. record m {
  conditions =
      list_map-map (convert_runtime_condition v) (convert_runtime_condition u) m.conditions
        (convert_runtime_condition-convert v) i;
}

pub convert_status_request-convert :
    {u : Version} (v : Version) (m : StatusRequestOf u)
    → convert_status_request u (convert_status_request v m) ≡ m
unfolding convert_status_request
convert_status_request-convert v m = refl

pub convert_status_response-convert :
    {u : Version} (v : Version) (m : StatusResponseOf u)
    → convert_status_response u (convert_status_response v m) ≡ m
unfolding convert_status_response
convert_status_response-convert {u} v m = λ i. record m {
  status =
      map-map (convert_runtime_status v) (convert_runtime_status u) m.status
        (convert_runtime_status-convert v) i;
}
