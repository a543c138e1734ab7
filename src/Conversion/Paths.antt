-- ===== src/Conversion/Paths.antt =====
-- Conversions there and back over what may be missing, and over lists.
use mathlib.Core.Option
use mathlib.Core.Option.{some-injective}
use criproxy.Prelude.{◌≡◌, refl, ap, ◌↔◌, Option, none, some, List, [], ◌∷◌, map, All}

-- The property of what is there.
abbrev pub IfThere : {A : Type 0} → (A → Type 0) → Option A → Type 0
IfThere P none = Unit {0}
IfThere P (some a) = P a

module _ {A B : Type 0} (f : A → B) (g : B → A) where
  pub map-map : (o : Option A) → ((a : A) → g (f a) ≡ a) → Option.map g (Option.map f o) ≡ o
  map-map none h = refl
  map-map (some a) h = ap some (h a)

  pub list_map-map : (l : List A) → ((a : A) → g (f a) ≡ a) → map g (map f l) ≡ l
  list_map-map [] h = refl
  list_map-map (a ∷ l) h = λ i. h a i ∷ list_map-map l h i

  pub map-map_iff :
      (P : A → Type 0) (o : Option A)
      → ((a : A) → (g (f a) ≡ a) ↔ P a)
      → (Option.map g (Option.map f o) ≡ o) ↔ IfThere P o
  map-map_iff P none h = (λ e. tt, λ k. refl)
  map-map_iff P (some a) h = (λ e. (h a).0 (some-injective _ a e), λ k. ap some ((h a).1 k))

  pub list_map-map_iff :
      (P : A → Type 0) (l : List A)
      → ((a : A) → (g (f a) ≡ a) ↔ P a)
      → (map g (map f l) ≡ l) ↔ All P l
  list_map-map_iff P [] h = (λ e. tt, λ k. refl)
  list_map-map_iff P (a ∷ l) h = (
    λ e. ((h a).0 (cc), (list_map-map_iff P l h).0 (cc)),
    λ k i. (h a).1 k.0 i ∷ (list_map-map_iff P l h).1 k.1 i,
  )
