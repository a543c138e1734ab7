-- ===== src/Proxy/Routing.antt =====
-- How a request finds its client, in pkg/proxy/proxy.go. A client is its place in the list.
pub mod Route
pub mod Places
pub mod Returns
use criproxy.Prelude.{ℕ, suc, Bool, true, false, Option, none, some, List, [], ◌∷◌, if◌then◌else◌}
use criproxy.Text.{Text}
use criproxy.Errors.{target_unavailable, unknown_runtime}
use criproxy.Naming.{
  ClientBase, Annotations, lookup, annotations_match, id_prefix_matches, image_matches,
  target_runtime_annotation_key,
}
use criproxy.Proxy.World.{Version, M, ◌>>=◌, ◌>>◌, pure, fail}
use criproxy.Proxy.Client.{connect_client, is_client_up, connect_and_wait}

-- The first client is the primary one; `others` are r.clients[1:].
pub record RuntimeProxy : Type 0 where
  pub cri_version : Version
  pub primary : ClientBase
  pub others : List ClientBase

abbrev pub clients : RuntimeProxy → List ClientBase
clients r = r.primary ∷ r.others

unfoldable pub primary_client : M ℕ
primary_client = do connect_and_wait 0; pure 0

-- The loop of clientForAnnotations from the i-th client on.
unfoldable pub client_for_annotations_from : ℕ → List ClientBase → Annotations → M ℕ
client_for_annotations_from i [] annotations =
    fail (unknown_runtime (lookup target_runtime_annotation_key annotations))
client_for_annotations_from i (c ∷ cs) annotations = elim (annotations_match c annotations) [
  | true ↦ do connect_and_wait i; pure i
  | false ↦ client_for_annotations_from (suc i) cs annotations
]

unfoldable pub client_for_annotations : RuntimeProxy → Annotations → M ℕ
client_for_annotations r annotations = client_for_annotations_from 0 (clients r) annotations

-- The loop of clientForId from the i-th client on. The primary client takes the id as it is.
unfoldable pub client_for_id_from : ℕ → List ClientBase → Text → M (ℕ × Text)
client_for_id_from i [] id = do connect_and_wait 0; pure (0, id)
client_for_id_from i (c ∷ cs) id = elim (id_prefix_matches c id) [
  | none ↦ client_for_id_from (suc i) cs id
  | some unprefixed ↦ do
    _ ← connect_client i
    up ← is_client_up i
    elim up [ false ↦ fail target_unavailable | true ↦ do connect_and_wait i; pure (i, unprefixed) ]
]

unfoldable pub client_for_id : RuntimeProxy → Text → M (ℕ × Text)
client_for_id r id = client_for_id_from 1 r.others id

-- The loop of clientForImage; none is the result with no client and no error.
unfoldable pub client_for_image_from : ℕ → List ClientBase → Text → Bool → M (Option (ℕ × Text))
client_for_image_from i [] image no_error_if_not_connected = do
  connect_and_wait 0
  pure (some (0, image))
client_for_image_from i (c ∷ cs) image no_error_if_not_connected = elim (image_matches c image) [
  | none ↦ client_for_image_from (suc i) cs image no_error_if_not_connected
  | some unprefixed ↦ do
    _ ← connect_client i
    up ← is_client_up i
    elim up [
      | false ↦ if no_error_if_not_connected then pure none else fail target_unavailable
      | true ↦ do connect_and_wait i; pure (some (i, unprefixed))
    ]
]

unfoldable pub client_for_image : RuntimeProxy → Text → Bool → M (Option (ℕ × Text))
client_for_image r image no_error_if_not_connected =
    client_for_image_from 1 r.others image no_error_if_not_connected
