-- ===== src/Naming.antt =====
-- clientBase of pkg/proxy/apiclient.go: the id of a client and the names that carry it.
pub mod RoundTrip
pub mod Separation
use criproxy.Prelude.{
  ℕ, ◌+◌, ◌≡◌, Bool, true, false, not, ◌&&◌, Option, none, some, List, [], ◌∷◌, ◌++◌, arith,
  if◌then◌else◌, length, drop, is_some,
}
use criproxy.Text.{Text, codes, text_eq, has_prefix}

pub record ClientBase : Type 0 where
  pub id : Text

-- A client with no id is the primary one.
unfoldable pub is_primary : ClientBase → Bool
unfolding text_eq
is_primary c = text_eq c.id []

unfoldable pub image_name : ClientBase → Text → Text
unfolding is_primary
image_name c unprefixed_name =
    if is_primary c then unprefixed_name else c.id ++ (codes "/" ++ unprefixed_name)

unfoldable pub augment_id : ClientBase → Text → Text
unfolding is_primary
augment_id c id = if not (is_primary c) then c.id ++ (codes "__" ++ id) else id

-- A Go map with text keys.
abbrev pub Annotations : Type 0
Annotations = List (Text × Text)

unfoldable pub lookup : Text → Annotations → Option Text
unfolding text_eq
lookup k [] = none
lookup k ((j, v) ∷ m) = if text_eq j k then some v else lookup k m

abbrev pub target_runtime_annotation_key : Text
target_runtime_annotation_key = codes "kubernetes.io/target-runtime"

unfoldable pub annotations_match : ClientBase → Annotations → Bool
unfolding is_primary lookup
annotations_match c annotations = elim (lookup target_runtime_annotation_key annotations) [
  | none ↦ is_primary c
  | some target_runtime ↦ if is_primary c then false else text_eq target_runtime c.id
]

-- `none` is the result (false, "").
unfoldable pub id_prefix_matches : ClientBase → Text → Option Text
unfolding is_primary has_prefix
id_prefix_matches c id =
    if is_primary c
    then some id
    else if has_prefix id (c.id ++ codes "__")
    then some (drop (length c.id + 2) id)
    else none

unfoldable pub image_matches : ClientBase → Text → Option Text
unfolding is_primary has_prefix
image_matches c image_name =
    if is_primary c
    then some image_name
    else if has_prefix image_name (c.id ++ codes "/")
    then some (drop (length c.id + 1) image_name)
    else none
