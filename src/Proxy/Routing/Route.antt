-- ===== src/Proxy/Routing/Route.antt =====
-- The client that a name stands for, with no connections: the specification of the routing.
use criproxy.Prelude.{
  ℕ, suc, ◌≡◌, refl, Bool, true, false, Option, none, some, List, [], ◌∷◌, get_elem?, arith, ◌+◌,
  inl, inr, subst, Option-cases, Bool-cases, if◌then◌else◌,
}
use criproxy.Text.{Text}
use criproxy.Errors.{target_unavailable}
use criproxy.Naming.{ClientBase, Annotations, annotations_match, id_prefix_matches, image_matches}
use criproxy.Proxy.World.{◌>>◌, pure, fail}
use criproxy.Proxy.Client.{connect_and_wait}
use criproxy.Proxy.Logic.{Reads, Reads-bind, Reads-pure, Reads-fail, Reads-weaken}
use criproxy.Proxy.Logic.Sections.{
  Any, connect_client-Reads, is_client_up-Reads, connect_and_wait-Reads,
}
use criproxy.Proxy.Routing.{
  RuntimeProxy, clients, client_for_annotations_from, client_for_annotations, client_for_id_from,
  client_for_id, client_for_image_from, client_for_image,
}

-- The first client from the i-th on that matches a name, and what it makes of it; the primary one
-- with the name as it is, if none does.
unfoldable pub route_from :
    (ClientBase → Text → Option Text) → ℕ → List ClientBase → Text → ℕ × Text
route_from matches i [] name = (0, name)
route_from matches i (c ∷ cs) name = elim (matches c name) [
  | none ↦ route_from matches (suc i) cs name
  | some unprefixed ↦ (i, unprefixed)
]

abbrev pub route_id : RuntimeProxy → Text → ℕ × Text
route_id r id = route_from id_prefix_matches 1 r.others id

abbrev pub route_image : RuntimeProxy → Text → ℕ × Text
route_image r image = route_from image_matches 1 r.others image

module _ (i : ℕ) (unprefixed : Text) where
  id_client-Reads :
      (up : Bool)
      → Reads {A = ℕ × Text}
          (λ found. found ≡ (i, unprefixed))
          (elim up [
            | false ↦ fail target_unavailable
            | true ↦ do connect_and_wait i; pure (i, unprefixed)
          ])
  id_client-Reads false = Reads-fail _ target_unavailable
  id_client-Reads true =
      Reads-bind Any _ _ _ (connect_and_wait-Reads i) λ _ _. Reads-pure _ (i, unprefixed) refl

  abbrev ImageClient : Bool → Option (ℕ × Text) → Type 0
  ImageClient no_error none = no_error ≡ true
  ImageClient no_error (some found) = found ≡ (i, unprefixed)

  offline_image-Reads :
      (no_error : Bool)
      → Reads (ImageClient no_error) (if no_error then pure none else fail target_unavailable)
  offline_image-Reads true = Reads-pure (ImageClient true) none refl
  offline_image-Reads false = Reads-fail _ target_unavailable

  found_image-Reads :
      (no_error up : Bool)
      → Reads (ImageClient no_error) (elim up [
        | false ↦ if no_error then pure none else fail target_unavailable
        | true ↦ do connect_and_wait i; pure (some (i, unprefixed))
      ])
  found_image-Reads no_error false = offline_image-Reads no_error
  found_image-Reads no_error true =
      Reads-bind Any _ _ _ (connect_and_wait-Reads i)
        λ _ _. Reads-pure (ImageClient no_error) (some (i, unprefixed)) refl

client_for_id_from-Reads :
    (i : ℕ) (cs : List ClientBase) (id : Text)
    → Reads (λ found. found ≡ route_from id_prefix_matches i cs id) (client_for_id_from i cs id)
unfolding client_for_id_from route_from
client_for_id_from-Reads i [] id =
    Reads-bind Any _ _ _ (connect_and_wait-Reads 0) λ _ _. Reads-pure _ (0, id) refl
client_for_id_from-Reads i (c ∷ cs) id = elim (Option-cases (id_prefix_matches c id)) [
  | inl e ↦ rw (e, client_for_id_from, route_from) (client_for_id_from-Reads (suc i) cs id)
  | inr (u, e) ↦
      rw (e, client_for_id_from, route_from)
        (Reads-bind Any _ _ _ (connect_client-Reads i)
          λ _ _. Reads-bind Any _ _ _ (is_client_up-Reads i) λ up _. id_client-Reads i u up)
]

-- Whatever happens meanwhile, a client that is found for an id is the one it stands for, with the
-- id that this client gave; and no call is made to find it.
pub client_for_id-Reads :
    (r : RuntimeProxy) (id : Text) → Reads (λ found. found ≡ route_id r id) (client_for_id r id)
unfolding client_for_id
client_for_id-Reads r id = client_for_id_from-Reads 1 r.others id

-- The client of an image, or none where that is no error.
abbrev pub IsImageClient : ℕ × Text → Bool → Option (ℕ × Text) → Type 0
IsImageClient route no_error none = no_error ≡ true
IsImageClient route no_error (some found) = found ≡ route

client_for_image_from-Reads :
    (i : ℕ) (cs : List ClientBase) (image : Text) (no_error : Bool)
    → Reads
        (IsImageClient (route_from image_matches i cs image) no_error)
        (client_for_image_from i cs image no_error)
unfolding client_for_image_from route_from
client_for_image_from-Reads i [] image no_error =
    Reads-bind Any _ _ _ (connect_and_wait-Reads 0)
      λ _ _. Reads-pure (IsImageClient (0, image) no_error) (some (0, image)) refl
client_for_image_from-Reads i (c ∷ cs) image no_error =
    elim (Option-cases (image_matches c image)) [
      | inl e ↦
          rw (e, client_for_image_from, route_from)
            (client_for_image_from-Reads (suc i) cs image no_error)
      | inr (u, e) ↦
          rw (e, client_for_image_from, route_from)
            (Reads-bind Any _ _ _ (connect_client-Reads i) λ _ _.
              Reads-bind Any _ _ _ (is_client_up-Reads i) λ up _. found_image-Reads i u no_error up)
    ]

-- Whatever happens meanwhile, a client that is found for an image is the one it stands for, with
-- the name that this client knows; that there is no client without an error happens only where the
-- caller asks for it; and no call is made to find it.
pub client_for_image-Reads :
    (r : RuntimeProxy) (image : Text) (no_error : Bool)
    → Reads (IsImageClient (route_image r image) no_error) (client_for_image r image no_error)
unfolding client_for_image
client_for_image-Reads r image no_error = client_for_image_from-Reads 1 r.others image no_error

-- The first client from the i-th on that the annotations match.
abbrev pub MatchesAnnotations : List ClientBase → Annotations → ℕ → Type 0
MatchesAnnotations cs annotations i =
    (c : ClientBase) × (get_elem? cs i ≡ some c) × (annotations_match c annotations ≡ true)

client_for_annotations_from-Reads :
    (i : ℕ) (cs : List ClientBase) (annotations : Annotations)
    → Reads
        (λ j. (k : ℕ) × (j ≡ i + k) × MatchesAnnotations cs annotations k)
        (client_for_annotations_from i cs annotations)
unfolding client_for_annotations_from
client_for_annotations_from-Reads i [] annotations = Reads-fail _ _
client_for_annotations_from-Reads i (c ∷ cs) annotations =
    elim (Bool-cases (annotations_match c annotations)) [
      | inl e ↦
          rw (e, client_for_annotations_from)
            (Reads-bind Any _ _ _ (connect_and_wait-Reads i)
              λ _ _. Reads-pure _ i (0, omega arith, (c, refl, e)))
      | inr e ↦
          rw (e, client_for_annotations_from)
            (Reads-weaken _ _ _ (client_for_annotations_from-Reads (suc i) cs annotations)
              λ j h. (suc h.0, omega (arith, h.1), h.2))
    ]

pub client_for_annotations-Reads :
    (r : RuntimeProxy) (annotations : Annotations)
    → Reads (MatchesAnnotations (clients r) annotations) (client_for_annotations r annotations)
unfolding client_for_annotations
client_for_annotations-Reads r annotations =
    Reads-weaken _ _ _ (client_for_annotations_from-Reads 0 (clients r) annotations) λ j h.
      let same : h.0 ≡ j = omega (arith, h.1) in
      subst (MatchesAnnotations (clients r) annotations) same h.2
