-- ===== src/Proxy/Routing/Places.antt =====
-- Every name that a client made leads back to it.
use criproxy.Prelude.{
  ℕ, zero, suc, ◌≡◌, refl, sym, ap, ◌∙◌, true, false, Option, some, List, [], ◌∷◌, get_elem?, arith,
  ◌+◌, ◌⊎◌, inl, inr, ◌≢◌, Option-cases, All,
}
use mathlib.Core.Option.{some-injective}
use criproxy.Text.{Text}
use criproxy.Naming.{
  ClientBase, is_primary, image_name, augment_id, id_prefix_matches, image_matches,
}
use criproxy.Naming.RoundTrip.{id_prefix_matches_iff, image_matches_iff}
use criproxy.Naming.Separation.{
  IsFree, id_prefix_matches-augment_id_unique, image_matches-image_name_unique,
}
use criproxy.Proxy.Routing.{RuntimeProxy, clients}
use criproxy.Proxy.Routing.Route.{route_from, route_id, route_image}

-- The ids of other clients than the primary one: not empty, with no separator, and distinct.
abbrev pub IsOther : ClientBase → Type 0
IsOther c = (is_primary c ≡ false) × IsFree b'_' c.id × IsFree b'/' c.id

abbrev pub AreDistinct : List ClientBase → Type 0
AreDistinct [] = Unit
AreDistinct (c ∷ cs) = All (λ d. c.id ≢ d.id) cs × AreDistinct cs

pub record IsWellFormed (r : RuntimeProxy) : Type 0 where
  pub primary : is_primary r.primary ≡ true
  pub others : All IsOther r.others
  pub distinct : AreDistinct r.others

All-get_elem? :
    {A : Type 0} (P : A → Type 0) (xs : List A) (k : ℕ) (x : A)
    → All P xs
    → get_elem? xs k ≡ some x
    → P x
All-get_elem? P [] k x h e = cc
All-get_elem? P (y ∷ xs) zero x h e = ground arith
All-get_elem? P (y ∷ xs) (suc k) x h e = All-get_elem? P xs k x h.1 e

augment_id-primary : (c : ClientBase) (x : Text) → is_primary c ≡ true → augment_id c x ≡ x
unfolding augment_id
augment_id-primary c x h = rw h

image_name-primary : (c : ClientBase) (x : Text) → is_primary c ≡ true → image_name c x ≡ x
unfolding image_name
image_name-primary c x h = rw h

-- What the routing makes of a name: the primary client with the name, or another that matches it.
module _ (matches : ClientBase → Text → Option Text) where
  abbrev Found : ℕ → List ClientBase → Text → ℕ × Text → Type 0
  Found i cs name out =
      (out ≡ (0, name))
      ⊎ ((k : ℕ) × (c : ClientBase) × (out.0 ≡ i + k)
          × (get_elem? cs k ≡ some c)
          × (matches c name ≡ some out.1))

  route_from-Found :
      (i : ℕ) (cs : List ClientBase) (name : Text) → Found i cs name (route_from matches i cs name)
  unfolding route_from
  route_from-Found i [] name = inl refl
  route_from-Found i (c ∷ cs) name = elim (Option-cases (matches c name)) [
    | inl e ↦ rw (e, route_from) (found_later (route_from-Found (suc i) cs name))
    | inr (u, e) ↦ rw (e, route_from) (inr (0, c, omega arith, refl, e))
  ]
    where
      found_later : {out : ℕ × Text} → Found (suc i) cs name out → Found i (c ∷ cs) name out
      found_later (inl e) = inl e
      found_later (inr (k, d, place, here, m)) = inr (suc k, d, omega (arith, place), here, m)

  -- The client that matches is found, if no client before it matches.
  route_from_first :
      (i : ℕ) (cs : List ClientBase) (k : ℕ) (c : ClientBase) (name x : Text)
      → get_elem? cs k ≡ some c
      → matches c name ≡ some x
      → ((j : ℕ) (d : ClientBase) (y : Text)
          → get_elem? cs j ≡ some d
          → matches d name ≡ some y
          → j ≡ k)
      → route_from matches i cs name ≡ (i + k, x)
  unfolding route_from
  route_from_first i [] k c name x here m only = cc
  route_from_first i (d ∷ cs) zero c name x here m only = ground arith
  route_from_first i (d ∷ cs) (suc k) c name x here m only = elim (Option-cases (matches d name)) [
    | inl e ↦
        rw (e, route_from)
          (route_from_first (suc i) cs k c name x here m
              (λ j d' y there m'. omega (arith, only (suc j) d' y there m'))
            ∙ ap (λ (p : ℕ). (p, x)) (omega arith))
    | inr (y, e) ↦ absurd (omega (arith, only zero d y refl e))
  ]

distinct_later :
    (c d : ClientBase) (cs : List ClientBase) (k : ℕ)
    → All (λ e. c.id ≢ e.id) cs
    → get_elem? cs k ≡ some d
    → c.id ≢ d.id
distinct_later c d cs k h there = All-get_elem? (λ e. c.id ≢ e.id) cs k d h there

distinct_places :
    (cs : List ClientBase) (j k : ℕ) (c d : ClientBase)
    → AreDistinct cs
    → get_elem? cs j ≡ some c
    → get_elem? cs k ≡ some d
    → c.id ≡ d.id
    → j ≡ k
distinct_places [] j k c d h here there e = cc
distinct_places (b ∷ cs) zero zero c d h here there e = refl
distinct_places (b ∷ cs) zero (suc k) c d h here there e =
    absurd (distinct_later b d cs k h.0 there (ap (λ x. x.id) (some-injective b c here) ∙ e))
distinct_places (b ∷ cs) (suc j) zero c d h here there e =
    absurd (distinct_later b c cs j h.0 here (ap (λ x. x.id) (some-injective b d there) ∙ sym e))
distinct_places (b ∷ cs) (suc j) (suc k) c d h here there e =
    ap suc (distinct_places cs j k c d h.1 here there e)

-- Where the first client is primary, an id is routed to a client that exists, which makes that id
-- again of what is left of it.
pub route_id_sound :
    (r : RuntimeProxy) (id : Text)
    → is_primary r.primary ≡ true
    → (c : ClientBase) × (get_elem? (clients r) (route_id r id).0 ≡ some c)
      × (augment_id c (route_id r id).1 ≡ id)
route_id_sound r id p = by_place (route_from-Found id_prefix_matches 1 r.others id)
  where
    by_place :
        {out : ℕ × Text}
        → Found id_prefix_matches 1 r.others id out
        → (c : ClientBase) × (get_elem? (clients r) out.0 ≡ some c) × (augment_id c out.1 ≡ id)
    by_place (inl e) = (r.primary, ground arith, rw e (augment_id-primary r.primary id p))
    by_place (inr (k, c, place, here, m)) =
        (c, ground arith, sym ((id_prefix_matches_iff c id _).0 m))

-- Where the first client is primary, an image is routed to a client that exists, which makes that
-- image name again of what is left of it.
pub route_image_sound :
    (r : RuntimeProxy) (image : Text)
    → is_primary r.primary ≡ true
    → (c : ClientBase) × (get_elem? (clients r) (route_image r image).0 ≡ some c)
      × (image_name c (route_image r image).1 ≡ image)
route_image_sound r image p = by_place (route_from-Found image_matches 1 r.others image)
  where
    by_place :
        {out : ℕ × Text}
        → Found image_matches 1 r.others image out
        → (c : ClientBase) × (get_elem? (clients r) out.0 ≡ some c) × (image_name c out.1 ≡ image)
    by_place (inl e) = (r.primary, ground arith, rw e (image_name-primary r.primary image p))
    by_place (inr (k, c, place, here, m)) =
        (c, ground arith, sym ((image_matches_iff c image _).0 m))

module _ (r : RuntimeProxy) (wf : IsWellFormed r) (k : ℕ) (c : ClientBase)
    (here : get_elem? r.others k ≡ some c) (x : Text) where
  other : IsOther c
  other = All-get_elem? IsOther r.others k c wf.others here

  -- In a proxy whose clients have well-formed ids, an id that one of the other clients than the
  -- primary one made is routed to that client, with the id it was made of.
  pub route_id-augment_id : route_id r (augment_id c x) ≡ (suc k, x)
  route_id-augment_id =
      route_from_first id_prefix_matches 1 r.others k c (augment_id c x) x here
        ((id_prefix_matches_iff c (augment_id c x) x).1 refl) only
      ∙ ap (λ (p : ℕ). (p, x)) (omega arith)
    where
      only :
          (j : ℕ) (d : ClientBase) (y : Text)
          → get_elem? r.others j ≡ some d
          → id_prefix_matches d (augment_id c x) ≡ some y
          → j ≡ k
      only j d y there m =
          let o = All-get_elem? IsOther r.others j d wf.others there in
          let same = id_prefix_matches-augment_id_unique c d x y other.0 o.0 other.1 o.1 m in
          distinct_places r.others j k d c wf.distinct there here (sym same.0)

  -- In a proxy whose clients have well-formed ids, an image name that one of the other clients than
  -- the primary one made is routed to that client, with the name it was made of.
  pub route_image-image_name : route_image r (image_name c x) ≡ (suc k, x)
  route_image-image_name =
      route_from_first image_matches 1 r.others k c (image_name c x) x here
        ((image_matches_iff c (image_name c x) x).1 refl) only
      ∙ ap (λ (p : ℕ). (p, x)) (omega arith)
    where
      only :
          (j : ℕ) (d : ClientBase) (y : Text)
          → get_elem? r.others j ≡ some d
          → image_matches d (image_name c x) ≡ some y
          → j ≡ k
      only j d y there m =
          let o = All-get_elem? IsOther r.others j d wf.others there in
          let same = image_matches-image_name_unique c d x y other.0 o.0 other.2 o.2 m in
          distinct_places r.others j k d c wf.distinct there here (sym same.0)
