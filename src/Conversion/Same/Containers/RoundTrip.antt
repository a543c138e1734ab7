-- ===== src/Conversion/Same/Containers/RoundTrip.antt =====
-- The messages about containers come back from a conversion there and back.
use criproxy.Prelude.{◌≡◌, refl}
use criproxy.Conversion.Paths.{map-map, list_map-map}
use criproxy.Proxy.World.{Version}
use criproxy.Conversion.Same.Values.{convert_image_spec, convert_mount, convert_container_metadata}
use criproxy.Conversion.Same.Containers.{
  ContainerOf, convert_container, ContainerStateValueOf, convert_container_state_value,
  ContainerFilterOf, convert_container_filter, ContainerStatusOf, convert_container_status,
  ContainerStatusRequestOf, convert_container_status_request, ContainerStatusResponseOf,
  convert_container_status_response, ListContainersRequestOf, convert_list_containers_request,
  ListContainersResponseOf, convert_list_containers_response,
}
use criproxy.Conversion.Same.Values.RoundTrip.{
  convert_image_spec-convert, convert_mount-convert, convert_container_metadata-convert,
}

pub convert_container-convert :
    {u : Version} (v : Version) (m : ContainerOf u)
    → convert_container u (convert_container v m) ≡ m
unfolding convert_container
convert_container-convert {u} v m = λ i. record m {
  metadata =
      map-map (convert_container_metadata v) (convert_container_metadata u) m.metadata
        (convert_container_metadata-convert v) i;
  image =
      map-map (convert_image_spec v) (convert_image_spec u) m.image (convert_image_spec-convert v)
        i;
}

pub convert_container_state_value-convert :
    {u : Version} (v : Version) (m : ContainerStateValueOf u)
    → convert_container_state_value u (convert_container_state_value v m) ≡ m
unfolding convert_container_state_value
convert_container_state_value-convert v m = refl

pub convert_container_filter-convert :
    {u : Version} (v : Version) (m : ContainerFilterOf u)
    → convert_container_filter u (convert_container_filter v m) ≡ m
unfolding convert_container_filter
convert_container_filter-convert {u} v m = λ i. record m {
  state =
      map-map (convert_container_state_value v) (convert_container_state_value u) m.state
        (convert_container_state_value-convert v) i;
}

pub convert_container_status-convert :
    {u : Version} (v : Version) (m : ContainerStatusOf u)
    → convert_container_status u (convert_container_status v m) ≡ m
unfolding convert_container_status
convert_container_status-convert {u} v m = λ i. record m {
  metadata =
      map-map (convert_container_metadata v) (convert_container_metadata u) m.metadata
        (convert_container_metadata-convert v) i;
  image =
      map-map (convert_image_spec v) (convert_image_spec u) m.image (convert_image_spec-convert v)
        i;
  mounts = list_map-map (convert_mount v) (convert_mount u) m.mounts (convert_mount-convert v) i;
}

pub convert_container_status_request-convert :
    {u : Version} (v : Version) (m : ContainerStatusRequestOf u)
    → convert_container_status_request u (convert_container_status_request v m) ≡ m
unfolding convert_container_status_request
convert_container_status_request-convert v m = refl

pub convert_container_status_response-convert :
    {u : Version} (v : Version) (m : ContainerStatusResponseOf u)
    → convert_container_status_response u (convert_container_status_response v m) ≡ m
unfolding convert_container_status_response
convert_container_status_response-convert {u} v m = λ i. record m {
  status =
      map-map (convert_container_status v) (convert_container_status u) m.status
        (convert_container_status-convert v) i;
}

pub convert_list_containers_request-convert :
    {u : Version} (v : Version) (m : ListContainersRequestOf u)
    → convert_list_containers_request u (convert_list_containers_request v m) ≡ m
unfolding convert_list_containers_request
convert_list_containers_request-convert {u} v m = λ i. record m {
  filter =
      map-map (convert_container_filter v) (convert_container_filter u) m.filter
        (convert_container_filter-convert v) i;
}

pub convert_list_containers_response-convert :
    {u : Version} (v : Version) (m : ListContainersResponseOf u)
    → convert_list_containers_response u (convert_list_containers_response v m) ≡ m
unfolding convert_list_containers_response
convert_list_containers_response-convert {u} v m = λ i. record m {
  containers =
      list_map-map (convert_container v) (convert_container u) m.containers
        (convert_container-convert v) i;
}
