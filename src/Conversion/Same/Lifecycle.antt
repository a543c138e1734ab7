-- ===== src/Conversion/Same/Lifecycle.antt =====
-- The messages that make, change and remove containers, the same in both versions, and their conversions in both
-- directions (pkg/runtimeapis/v1_9/conversion_generated.go).
pub mod RoundTrip
use mathlib.Core.Option
use criproxy.Prelude.{ℤ, Option}
use criproxy.Text.{Text}
use criproxy.Proxy.World.{Version}
use criproxy.Conversion.Same.Values.{LinuxContainerResourcesOf, convert_linux_container_resources}

pub record CreateContainerResponseOf (v : Version) : Type 0 where
  pub container_id : Text

unfoldable pub convert_create_container_response :
    {u : Version} (v : Version) → CreateContainerResponseOf u → CreateContainerResponseOf v
convert_create_container_response v m = record { container_id = m.container_id }

pub record StartContainerRequestOf (v : Version) : Type 0 where
  pub container_id : Text

unfoldable pub convert_start_container_request :
    {u : Version} (v : Version) → StartContainerRequestOf u → StartContainerRequestOf v
convert_start_container_request v m = record { container_id = m.container_id }

pub data StartContainerResponseOf (v : Version) : Type 0 where
  empty : StartContainerResponseOf v

unfoldable pub convert_start_container_response :
    {u : Version} (v : Version) → StartContainerResponseOf u → StartContainerResponseOf v
convert_start_container_response v StartContainerResponseOf.empty = StartContainerResponseOf.empty

pub record StopContainerRequestOf (v : Version) : Type 0 where
  pub container_id : Text
  pub timeout : ℤ

unfoldable pub convert_stop_container_request :
    {u : Version} (v : Version) → StopContainerRequestOf u → StopContainerRequestOf v
convert_stop_container_request v m = record { container_id = m.container_id; timeout = m.timeout }

pub data StopContainerResponseOf (v : Version) : Type 0 where
  empty : StopContainerResponseOf v

unfoldable pub convert_stop_container_response :
    {u : Version} (v : Version) → StopContainerResponseOf u → StopContainerResponseOf v
convert_stop_container_response v StopContainerResponseOf.empty = StopContainerResponseOf.empty

pub record RemoveContainerRequestOf (v : Version) : Type 0 where
  pub container_id : Text

unfoldable pub convert_remove_container_request :
    {u : Version} (v : Version) → RemoveContainerRequestOf u → RemoveContainerRequestOf v
convert_remove_container_request v m = record { container_id = m.container_id }

pub data RemoveContainerResponseOf (v : Version) : Type 0 where
  empty : RemoveContainerResponseOf v

unfoldable pub convert_remove_container_response :
    {u : Version} (v : Version) → RemoveContainerResponseOf u → RemoveContainerResponseOf v
convert_remove_container_response v RemoveContainerResponseOf.empty =
    RemoveContainerResponseOf.empty

pub record UpdateContainerResourcesRequestOf (v : Version) : Type 0 where
  pub container_id : Text
  pub linux : Option (LinuxContainerResourcesOf v)

unfoldable pub convert_update_container_resources_request :
    {u : Version} (v : Version)
    → UpdateContainerResourcesRequestOf u
    → UpdateContainerResourcesRequestOf v
convert_update_container_resources_request v m = record {
  container_id = m.container_id;
  linux = Option.map (convert_linux_container_resources v) m.linux;
}

pub data UpdateContainerResourcesResponseOf (v : Version) : Type 0 where
  empty : UpdateContainerResourcesResponseOf v

unfoldable pub convert_update_container_resources_response :
    {u : Version} (v : Version)
    → UpdateContainerResourcesResponseOf u
    → UpdateContainerResourcesResponseOf v
convert_update_container_resources_response v UpdateContainerResourcesResponseOf.empty =
    UpdateContainerResourcesResponseOf.empty
