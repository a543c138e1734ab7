-- ===== src/Object/Matcher.antt =====
-- pkg/proxy/typematcher.go: the matching of a message with its wrapper, by the names of their types.
-- A type is its name; the map's newest entry for a key is the first in the list.
pub mod Names
pub mod Registered
use criproxy.Prelude.{
  ℕ, zero, suc, ◌-◌, Option, none, some, List, [], ◌∷◌, ◌++◌, if◌then◌else◌, length, take,
}
use criproxy.Text.{Text, codes, text_eq, last_index, has_suffix}

pub record TypeMatcher : Type 0 where
  pub type_map : List (Text × Text)
  pub response_map : List (Text × Text)

abbrev pub new_type_matcher : TypeMatcher
new_type_matcher = record { type_map = []; response_map = [] }

unfoldable pub find : Text → List (Text × Text) → Option Text
find x [] = none
find x ((y, t) ∷ entries) = if text_eq x y then some t else find x entries

-- A type's name up to its last underscore, if that is not at the start.
unfoldable pub base_name : Text → Text
base_name name = elim (last_index name (codes "_")) [
  | none ↦ name
  | some zero ↦ name
  | some (suc p) ↦ take (suc p) name
]

abbrev pub response_suffix : Text
response_suffix = codes "Response"

abbrev pub request_suffix : Text
request_suffix = codes "Request"

-- The body of the loop of registerTypes, for a type and its base name.
unfoldable pub register_type : Text → Text → TypeMatcher → TypeMatcher
register_type t base tm = record {
  type_map = (base, t) ∷ tm.type_map;
  response_map =
      if has_suffix base response_suffix
      then (take (length base - 8) base ++ request_suffix, t) ∷ tm.response_map
      else tm.response_map;
}

unfoldable pub register_types : List Text → TypeMatcher → TypeMatcher
register_types [] tm = tm
register_types (t ∷ ts) tm = register_types ts (register_type t (base_name t) tm)

-- The wrapper's type and the type of the response, if there is one.
unfoldable pub match_type : TypeMatcher → Text → Option (Text × Option Text)
match_type tm name = elim (find name tm.type_map) [
  | none ↦ none
  | some target ↦ some (target, find name tm.response_map)
]
