-- ===== src/Conversion/Same/Lifecycle/RoundTrip.antt =====
-- The messages that make, change and remove containers come back from a conversion there and back.
use criproxy.Prelude.{◌≡◌, refl}
use criproxy.Conversion.Paths.{map-map}
use criproxy.Proxy.World.{Version}
use criproxy.Conversion.Same.Values.{convert_linux_container_resources}
use criproxy.Conversion.Same.Lifecycle.{
  CreateContainerResponseOf, convert_create_container_response, StartContainerRequestOf,
  convert_start_container_request, StartContainerResponseOf, convert_start_container_response,
  StopContainerRequestOf, convert_stop_container_request, StopContainerResponseOf,
  convert_stop_container_response, RemoveContainerRequestOf, convert_remove_container_request,
  RemoveContainerResponseOf, convert_remove_container_response, UpdateContainerResourcesRequestOf,
  convert_update_container_resources_request, UpdateContainerResourcesResponseOf,
  convert_update_container_resources_response,
}
use criproxy.Conversion.Same.Values.RoundTrip.{convert_linux_container_resources-convert}

pub convert_create_container_response-convert :
    {u : Version} (v : Version) (m : CreateContainerResponseOf u)
    → convert_create_container_response u (convert_create_container_response v m) ≡ m
unfolding convert_create_container_response
convert_create_container_response-convert v m = refl

pub convert_start_container_request-convert :
    {u : Version} (v : Version) (m : StartContainerRequestOf u)
    → convert_start_container_request u (convert_start_container_request v m) ≡ m
unfolding convert_start_container_request
convert_start_container_request-convert v m = refl

pub convert_start_container_response-convert :
    {u : Version} (v : Version) (m : StartContainerResponseOf u)
    → convert_start_container_response u (convert_start_container_response v m) ≡ m
unfolding convert_start_container_response
convert_start_container_response-convert v StartContainerResponseOf.empty = refl

pub convert_stop_container_request-convert :
    {u : Version} (v : Version) (m : StopContainerRequestOf u)
    → convert_stop_container_request u (convert_stop_container_request v m) ≡ m
unfolding convert_stop_container_request
convert_stop_container_request-convert v m = refl

pub convert_stop_container_response-convert :
    {u : Version} (v : Version) (m : StopContainerResponseOf u)
    → convert_stop_container_response u (convert_stop_container_response v m) ≡ m
unfolding convert_stop_container_response
convert_stop_container_response-convert v StopContainerResponseOf.empty = refl

pub convert_remove_container_request-convert :
    {u : Version} (v : Version) (m : RemoveContainerRequestOf u)
    → convert_remove_container_request u (convert_remove_container_request v m) ≡ m
unfolding convert_remove_container_request
convert_remove_container_request-convert v m = refl

pub convert_remove_container_response-convert :
    {u : Version} (v : Version) (m : RemoveContainerResponseOf u)
    → convert_remove_container_response u (convert_remove_container_response v m) ≡ m
unfolding convert_remove_container_response
convert_remove_container_response-convert v RemoveContainerResponseOf.empty = refl

pub convert_update_container_resources_request-convert :
    {u : Version} (v : Version) (m : UpdateContainerResourcesRequestOf u)
    → convert_update_container_resources_request u (convert_update_container_resources_request v m)
      ≡ m
unfolding convert_update_container_resources_request
convert_update_container_resources_request-convert {u} v m = λ i. record m {
  linux =
      map-map (convert_linux_container_resources v) (convert_linux_container_resources u) m.linux
        (convert_linux_container_resources-convert v) i;
}

pub convert_update_container_resources_response-convert :
    {u : Version} (v : Version) (m : UpdateContainerResourcesResponseOf u)
    → convert_update_container_resources_response u
        (convert_update_container_resources_response v m)
      ≡ m
unfolding convert_update_container_resources_response
convert_update_container_resources_response-convert v UpdateContainerResourcesResponseOf.empty =
    refl
