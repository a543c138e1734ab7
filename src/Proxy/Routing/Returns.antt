-- ===== src/Proxy/Routing/Returns.antt =====
-- The routing finds the client that a name stands for, if that client is up.
use criproxy.Prelude.{
  ℕ, suc, Bool, ◌≡◌, Bool-cases, if◌then◌else◌, refl, true, false, Option, none, some, List, [],
  ◌∷◌, inl, inr, subst, sym, Option-cases, arith,
}
use criproxy.Text.{Text}
use criproxy.Errors.{target_unavailable}
use criproxy.Naming.{ClientBase, Annotations, annotations_match, id_prefix_matches, image_matches}
use criproxy.Proxy.World.{Next, World, Call, ◌>>=◌, ◌>>◌, pure, fail}
use criproxy.Proxy.Client.{connect_and_wait, connect_client, is_client_up}
use criproxy.Proxy.Client.Returns.{
  Returns, Returns-bind, Returns-then, IsUp, connect_client_returns, is_client_up_returns,
  connect_and_wait_returns,
}
use criproxy.Proxy.Routing.{
  RuntimeProxy, clients, client_for_id_from, client_for_id, client_for_image_from, client_for_image,
  client_for_annotations_from, client_for_annotations,
}
use criproxy.Proxy.Routing.Route.{route_from, route_id, route_image}

module _ {next : Next} {i : ℕ} {log : List Call} where
  -- The wait for a client that is up, before a value is returned.
  waited :
      {A : Type 0} {w : World} (a : A)
      → IsUp next i log w
      → Returns (do connect_and_wait i; pure a) w (λ b v. (b ≡ a) × IsUp next i log v)
  waited a u = Returns-bind _ _ _ _ _ (connect_and_wait_returns u) λ t v k. (a, v, refl, (refl, k))

  matched_returns :
      {w : World} (unprefixed : Text)
      → IsUp next i log w
      → Returns {A = ℕ × Text}
          (do
            _ ← connect_client i
            up ← is_client_up i
            elim up [
              | false ↦ fail target_unavailable
              | true ↦ do connect_and_wait i; pure (i, unprefixed)
            ])
          w
          (λ b v. (b ≡ (i, unprefixed)) × IsUp next i log v)
  matched_returns unprefixed u = Returns-bind _ _ _ _ _ (connect_client_returns u) λ ch v k.
      Returns-then _ _ _ true _ _ (is_client_up_returns k.1) λ v' l. waited (i, unprefixed) l

  matched_image_returns :
      {w : World} (unprefixed : Text) (no_error : Bool)
      → IsUp next i log w
      → Returns {A = Option (ℕ × Text)}
          (do
            _ ← connect_client i
            up ← is_client_up i
            elim up [
              | false ↦ if no_error then pure none else fail target_unavailable
              | true ↦ do connect_and_wait i; pure (some (i, unprefixed))
            ])
          w
          (λ b v. (b ≡ some (i, unprefixed)) × IsUp next i log v)
  matched_image_returns unprefixed no_error u =
      Returns-bind _ _ _ _ _ (connect_client_returns u) λ ch v k.
        Returns-then _ _ _ true _ _ (is_client_up_returns k.1)
          λ v' l. waited (some (i, unprefixed)) l

client_for_id_from_returns :
    {next : Next} {log : List Call} {w : World} (i : ℕ) (cs : List ClientBase) (id : Text)
    → IsUp next (route_from id_prefix_matches i cs id).0 log w
    → Returns (client_for_id_from i cs id) w (λ found v.
      (found ≡ route_from id_prefix_matches i cs id)
      × IsUp next (route_from id_prefix_matches i cs id).0 log v)
unfolding client_for_id_from route_from
client_for_id_from_returns i [] id u = waited (0, id) u
client_for_id_from_returns {next} {log} {w} i (c ∷ cs) id u =
    elim (Option-cases (id_prefix_matches c id)) [
      | inl e ↦
          let same : route_from id_prefix_matches i (c ∷ cs) id
              ≡ route_from id_prefix_matches (suc i) cs id =
            rw (e, route_from) in
          rw (e, client_for_id_from, route_from)
            (client_for_id_from_returns (suc i) cs id (subst (λ out. IsUp next out.0 log w) same u))
      | inr (x, e) ↦
          let same : route_from id_prefix_matches i (c ∷ cs) id ≡ (i, x) = rw (e, route_from) in
          rw (e, client_for_id_from, route_from)
            (matched_returns x (subst (λ out. IsUp next out.0 log w) same u))
    ]

pub client_for_id_returns :
    {next : Next} {log : List Call} {w : World} (r : RuntimeProxy) (id : Text)
    → IsUp next (route_id r id).0 log w
    → Returns
        (client_for_id r id)
        w
        (λ found v. (found ≡ route_id r id) × IsUp next (route_id r id).0 log v)
unfolding client_for_id
client_for_id_returns r id u = client_for_id_from_returns 1 r.others id u

client_for_image_from_returns :
    {next : Next} {log : List Call} {w : World} (i : ℕ) (cs : List ClientBase) (image : Text)
    (no_error : Bool)
    → IsUp next (route_from image_matches i cs image).0 log w
    → Returns (client_for_image_from i cs image no_error) w (λ found v.
      (found ≡ some (route_from image_matches i cs image))
      × IsUp next (route_from image_matches i cs image).0 log v)
unfolding client_for_image_from route_from
client_for_image_from_returns i [] image no_error u = waited (some (0, image)) u
client_for_image_from_returns {next} {log} {w} i (c ∷ cs) image no_error u =
    elim (Option-cases (image_matches c image)) [
      | inl e ↦
          let same : route_from image_matches i (c ∷ cs) image
              ≡ route_from image_matches (suc i) cs image =
            rw (e, route_from) in
          rw (e, client_for_image_from, route_from)
            (client_for_image_from_returns (suc i) cs image no_error
              (subst (λ out. IsUp next out.0 log w) same u))
      | inr (x, e) ↦
          let same : route_from image_matches i (c ∷ cs) image ≡ (i, x) = rw (e, route_from) in
          rw (e, client_for_image_from, route_from)
            (matched_image_returns x no_error (subst (λ out. IsUp next out.0 log w) same u))
    ]

pub client_for_image_returns :
    {next : Next} {log : List Call} {w : World} (r : RuntimeProxy) (image : Text) (no_error : Bool)
    → IsUp next (route_image r image).0 log w
    → Returns
        (client_for_image r image no_error)
        w
        (λ found v. (found ≡ some (route_image r image)) × IsUp next (route_image r image).0 log v)
unfolding client_for_image
client_for_image_returns r image no_error u =
    client_for_image_from_returns 1 r.others image no_error u

-- The first client from the i-th on that the annotations match.
unfoldable pub route_annotations_from : ℕ → List ClientBase → Annotations → Option ℕ
route_annotations_from i [] annotations = none
route_annotations_from i (c ∷ cs) annotations = elim (annotations_match c annotations) [
  | true ↦ some i
  | false ↦ route_annotations_from (suc i) cs annotations
]

client_for_annotations_from_returns :
    {next : Next} {j : ℕ} {log : List Call} {w : World} (i : ℕ) (cs : List ClientBase)
    (annotations : Annotations)
    → route_annotations_from i cs annotations ≡ some j
    → IsUp next j log w
    → Returns
        (client_for_annotations_from i cs annotations)
        w
        (λ found v. (found ≡ j) × IsUp next j log v)
unfolding client_for_annotations_from route_annotations_from
client_for_annotations_from_returns i [] annotations h u = cc
client_for_annotations_from_returns {next} {j} {log} {w} i (c ∷ cs) annotations h u =
    elim (Bool-cases (annotations_match c annotations)) [
      | inl e ↦
          let same : i ≡ j = ground arith in
          rw (e, client_for_annotations_from)
            (subst
              (λ k.
                Returns (do connect_and_wait k; pure k) w
                  (λ found v. (found ≡ j) × IsUp next j log v))
              (sym same) (waited j u))
      | inr e ↦
          let later : route_annotations_from (suc i) cs annotations ≡ some j = ground arith in
          rw (e, client_for_annotations_from)
            (client_for_annotations_from_returns (suc i) cs annotations later u)
    ]

pub client_for_annotations_returns :
    {next : Next} {j : ℕ} {log : List Call} {w : World} (r : RuntimeProxy)
    (annotations : Annotations)
    → route_annotations_from 0 (clients r) annotations ≡ some j
    → IsUp next j log w
    → Returns (client_for_annotations r annotations) w (λ found v. (found ≡ j) × IsUp next j log v)
unfolding client_for_annotations
client_for_annotations_returns r annotations h u =
    client_for_annotations_from_returns 0 (clients r) annotations h u
