-- ===== src/Conversion/Same/Containers.antt =====
-- The messages about containers, the same in both versions, and their conversions in both
-- directions (pkg/runtimeapis/v1_9/conversion_generated.go).
pub mod RoundTrip
use mathlib.Core.Option
use criproxy.Prelude.{ℤ, Bool, Option, List, map}
use criproxy.Text.{Text}
use criproxy.Naming.{Annotations}
use criproxy.Proxy.World.{Version}
use criproxy.Conversion.Same.Values.{
  ImageSpecOf, convert_image_spec, MountOf, convert_mount, ContainerMetadataOf,
  convert_container_metadata,
}

pub record ContainerOf (v : Version) : Type 0 where
  pub id : Text
  pub pod_sandbox_id : Text
  pub metadata : Option (ContainerMetadataOf v)
  pub image : Option (ImageSpecOf v)
  pub image_ref : Text
  pub state : ℤ
  pub created_at : ℤ
  pub labels : Annotations
  pub annotations : Annotations

unfoldable pub convert_container : {u : Version} (v : Version) → ContainerOf u → ContainerOf v
convert_container v m = record {
  id = m.id;
  pod_sandbox_id = m.pod_sandbox_id;
  metadata = Option.map (convert_container_metadata v) m.metadata;
  image = Option.map (convert_image_spec v) m.image;
  image_ref = m.image_ref;
  state = m.state;
  created_at = m.created_at;
  labels = m.labels;
  annotations = m.annotations;
}

pub record ContainerStateValueOf (v : Version) : Type 0 where
  pub state : ℤ

unfoldable pub convert_container_state_value :
    {u : Version} (v : Version) → ContainerStateValueOf u → ContainerStateValueOf v
convert_container_state_value v m = record { state = m.state }

pub record ContainerFilterOf (v : Version) : Type 0 where
  pub id : Text
  pub state : Option (ContainerStateValueOf v)
  pub pod_sandbox_id : Text
  pub label_selector : Annotations

unfoldable pub convert_container_filter :
    {u : Version} (v : Version) → ContainerFilterOf u → ContainerFilterOf v
convert_container_filter v m = record {
  id = m.id;
  state = Option.map (convert_container_state_value v) m.state;
  pod_sandbox_id = m.pod_sandbox_id;
  label_selector = m.label_selector;
}

pub record ContainerStatusOf (v : Version) : Type 0 where
  pub id : Text
  pub metadata : Option (ContainerMetadataOf v)
  pub state : ℤ
  pub created_at : ℤ
  pub started_at : ℤ
  pub finished_at : ℤ
  pub exit_code : ℤ
  pub image : Option (ImageSpecOf v)
  pub image_ref : Text
  pub reason : Text
  pub message : Text
  pub labels : Annotations
  pub annotations : Annotations
  pub mounts : List (MountOf v)
  pub log_path : Text

unfoldable pub convert_container_status :
    {u : Version} (v : Version) → ContainerStatusOf u → ContainerStatusOf v
convert_container_status v m = record {
  id = m.id;
  metadata = Option.map (convert_container_metadata v) m.metadata;
  state = m.state;
  created_at = m.created_at;
  started_at = m.started_at;
  finished_at = m.finished_at;
  exit_code = m.exit_code;
  image = Option.map (convert_image_spec v) m.image;
  image_ref = m.image_ref;
  reason = m.reason;
  message = m.message;
  labels = m.labels;
  annotations = m.annotations;
  mounts = map (convert_mount v) m.mounts;
  log_path = m.log_path;
}

pub record ContainerStatusRequestOf (v : Version) : Type 0 where
  pub container_id : Text
  pub verbose : Bool

unfoldable pub convert_container_status_request :
    {u : Version} (v : Version) → ContainerStatusRequestOf u → ContainerStatusRequestOf v
convert_container_status_request v m = record { container_id = m.container_id; verbose = m.verbose }

pub record ContainerStatusResponseOf (v : Version) : Type 0 where
  pub status : Option (ContainerStatusOf v)
  pub info : Annotations

unfoldable pub convert_container_status_response :
    {u : Version} (v : Version) → ContainerStatusResponseOf u → ContainerStatusResponseOf v
convert_container_status_response v m = record {
  status = Option.map (convert_container_status v) m.status;
  info = m.info;
}

pub record ListContainersRequestOf (v : Version) : Type 0 where
  pub filter : Option (ContainerFilterOf v)

unfoldable pub convert_list_containers_request :
    {u : Version} (v : Version) → ListContainersRequestOf u → ListContainersRequestOf v
convert_list_containers_request v m = record {
  filter = Option.map (convert_container_filter v) m.filter;
}

pub record ListContainersResponseOf (v : Version) : Type 0 where
  pub containers : List (ContainerOf v)

unfoldable pub convert_list_containers_response :
    {u : Version} (v : Version) → ListContainersResponseOf u → ListContainersResponseOf v
convert_list_containers_response v m = record {
  containers = map (convert_container v) m.containers;
}
