-- ===== src/Proxy/Handlers/Listing/Targets.antt =====
-- Which client the filters of a listing are for, whatever happens meanwhile.
use mathlib.Core.Option.{some-injective}
use criproxy.Prelude.{
  ◌⊎◌, inl, inr, ℕ, ◌≡◌, ◌≢◌, refl, sym, ap, ◌∙◌, subst, true, false, Option, none, some, arith,
  ◌==◌, ==_refl,
}
use criproxy.Text.{Text}
use criproxy.Object.Requests.{Request}
use criproxy.Object.Filters.{
  id_filter?, set_id_filter, pod_sandbox_id_filter?, set_pod_sandbox_id_filter, image_filter?,
  set_image_filter,
}
use criproxy.Object.Filters.Laws.{
  pod_sandbox_id_filter?-set_id_filter, image_filter?-set_id_filter,
  image_filter?-set_pod_sandbox_id_filter,
}
use criproxy.Proxy.World.{pure}
use criproxy.Proxy.Logic.{Reads, Reads-bind, Reads-pure, Reads-weaken}
use criproxy.Proxy.Routing.{RuntimeProxy}
use criproxy.Proxy.Routing.Route.{
  route_id, route_image, client_for_id-Reads, client_for_image-Reads, IsImageClient,
}
use criproxy.Proxy.Handlers.Listing.{
  Target, given, add_target, filter_by_id, filter_by_sandbox, filter_by_image, targets,
}

-- The client that a listing is for by its filters, and the request with the names that it knows.
pub data IsFor (r : RuntimeProxy) (req : Request) : ℕ → Request → Type 0 where
  by_id :
      (id : Text)
      → given (id_filter? req) ≡ some id
      → given (pod_sandbox_id_filter? req) ≡ none
      → given (image_filter? req) ≡ none
      → IsFor r req (route_id r id).0 (set_id_filter (route_id r id).1 req)
  by_sandbox :
      (id : Text)
      → given (id_filter? req) ≡ none
      → given (pod_sandbox_id_filter? req) ≡ some id
      → given (image_filter? req) ≡ none
      → IsFor r req (route_id r id).0 (set_pod_sandbox_id_filter (route_id r id).1 req)
  by_both :
      (id sandbox : Text)
      → given (id_filter? req) ≡ some id
      → given (pod_sandbox_id_filter? req) ≡ some sandbox
      → given (image_filter? req) ≡ none
      → (route_id r id).0 ≡ (route_id r sandbox).0
      → IsFor r req
          (route_id r sandbox).0
          (set_pod_sandbox_id_filter (route_id r sandbox).1 (set_id_filter (route_id r id).1 req))
  by_image :
      (image : Text)
      → given (id_filter? req) ≡ none
      → given (pod_sandbox_id_filter? req) ≡ none
      → given (image_filter? req) ≡ some image
      → IsFor r req (route_image r image).0 (set_image_filter (route_image r image).1 req)

module _ (r : RuntimeProxy) (req : Request) where
  abbrev all_clients : Target
  all_clients = record { single = none; use_single = false; req = req }

  abbrev pub one_client : ℕ → Request → Target
  one_client i req' = record { single = some i; use_single = true; req = req' }

  filter_by_id-given :
      (id : Text)
      → given (id_filter? req) ≡ some id
      → Reads
          (λ t. t ≡ one_client (route_id r id).0 (set_id_filter (route_id r id).1 req))
          (filter_by_id r req)
  unfolding filter_by_id
  filter_by_id-given id e =
      rw (filter_by_id, e)
        (Reads-bind _ _ _ _ (client_for_id-Reads r id)
          λ found same. Reads-pure _ _ (rw (same) refl))

  filter_by_id-none :
      given (id_filter? req) ≡ none → Reads (λ t. t ≡ all_clients) (filter_by_id r req)
  unfolding filter_by_id
  filter_by_id-none e = rw (filter_by_id, e) (Reads-pure _ all_clients refl)

  filter_by_sandbox-none :
      (t : Target)
      → given (pod_sandbox_id_filter? t.req) ≡ none
      → Reads (λ u. u ≡ some t) (filter_by_sandbox r t)
  unfolding filter_by_sandbox
  filter_by_sandbox-none t e = rw (filter_by_sandbox, e) (Reads-pure _ (some t) refl)

  filter_by_sandbox-given :
      (t : Target) (id : Text)
      → given (pod_sandbox_id_filter? t.req) ≡ some id
      → Reads
          (λ u. u ≡ add_target set_pod_sandbox_id_filter t (some (route_id r id)))
          (filter_by_sandbox r t)
  unfolding filter_by_sandbox
  filter_by_sandbox-given t id e =
      rw (filter_by_sandbox, e)
        (Reads-bind _ _ _ _ (client_for_id-Reads r id)
          λ found same. Reads-pure _ _ (rw (same) refl))

  filter_by_image-none :
      (t : Target)
      → given (image_filter? t.req) ≡ none
      → Reads (λ u. u ≡ some t) (filter_by_image r t)
  unfolding filter_by_image
  filter_by_image-none t e = rw (filter_by_image, e) (Reads-pure _ (some t) refl)

  add_target-same :
      (change : Text → Request → Request) (j i : ℕ) (unprefixed : Text) (req' : Request)
      → j ≡ i
      → add_target change (one_client j req') (some (i, unprefixed))
        ≡ some (one_client i (change unprefixed req'))
  unfolding add_target
  add_target-same change j i unprefixed req' same = rw (add_target, same, ==_refl i) refl

  targets_by :
      (a : Target) (b : Option Target)
      → Reads (λ t. t ≡ a) (filter_by_id r req)
      → Reads (λ u. u ≡ b) (filter_by_sandbox r a)
      → ((t : Target) → b ≡ some t → given (image_filter? t.req) ≡ none)
      → Reads (λ u. u ≡ b) (targets r req)
  unfolding targets
  targets_by a none h k no_image = Reads-bind _ _ _ _ h λ t e.
      Reads-bind (λ u. u ≡ none) _ _ _
        (subst (λ x. Reads (λ u. u ≡ none) (filter_by_sandbox r x)) (sym e) k)
        λ u f. rw (f) (Reads-pure _ none refl)
  targets_by a (some b) h k no_image = Reads-bind _ _ _ _ h λ t e.
      Reads-bind (λ u. u ≡ some b) _ _ _
        (subst (λ x. Reads (λ u. u ≡ some b) (filter_by_sandbox r x)) (sym e) k)
        λ u f. rw (f) (filter_by_image-none b (no_image b refl))

  image_kept :
      {a : Target}
      → given (image_filter? req) ≡ none
      → (t : Target) → some a ≡ some t
      → image_filter? a.req ≡ image_filter? req
      → given (image_filter? t.req) ≡ none
  image_kept {a} no_image t f kept =
      ap (λ u. given (image_filter? u.req)) (sym (some-injective a t f))
      ∙ (ap given kept ∙ no_image)

  -- Where the client of an image is not up there is no client, and no error.
  abbrev pub no_client : Target
  no_client = record { single = none; use_single = true; req = req }

  abbrev pub IsTarget : ℕ → Request → Option Target → Type 0
  IsTarget i req' u = (u ≡ some (one_client i req')) ⊎ (u ≡ some no_client)

  at_once :
      (i : ℕ) (req' : Request)
      → Reads (λ u. u ≡ some (one_client i req')) (targets r req)
      → Reads (IsTarget i req') (targets r req)
  at_once i req' h = Reads-weaken _ _ _ h λ u e. inl e

  found-IsTarget :
      (route : ℕ × Text) (found : Option (ℕ × Text))
      → IsImageClient route true found
      → Reads
          (IsTarget route.0 (set_image_filter route.1 req))
          (pure (add_target set_image_filter all_clients found))
  unfolding add_target
  found-IsTarget route none h = Reads-pure _ _ (inr refl)
  found-IsTarget route (some f) h = Reads-pure _ _ (inl (rw (h) refl))

  filter_by_image-given :
      (image : Text)
      → given (image_filter? req) ≡ some image
      → Reads
          (IsTarget (route_image r image).0 (set_image_filter (route_image r image).1 req))
          (filter_by_image r all_clients)
  unfolding filter_by_image
  filter_by_image-given image e =
      rw (filter_by_image, e)
        (Reads-bind _ _ _ _ (client_for_image-Reads r image true)
          λ found h. found-IsTarget _ found h)

  pub targets-IsFor :
      (i : ℕ) (req' : Request) → IsFor r req i req' → Reads (IsTarget i req') (targets r req)
  unfolding add_target targets
  targets-IsFor _ _ (by_id id e none_else no_image) = at_once _ _ (
      targets_by _ _ (filter_by_id-given id e)
        (filter_by_sandbox-none _
          (ap given (pod_sandbox_id_filter?-set_id_filter _ req) ∙ none_else))
        λ t f. image_kept no_image t f (image_filter?-set_id_filter _ req))
  targets-IsFor _ _ (by_sandbox id none_else e no_image) = at_once _ _ (
      targets_by _ _ (filter_by_id-none none_else) (filter_by_sandbox-given all_clients id e)
        λ t f. image_kept no_image t f (image_filter?-set_pod_sandbox_id_filter _ req))
  targets-IsFor _ _ (by_both id sandbox e f no_image same) =
      let own = set_id_filter (route_id r id).1 req in
      let asked = one_client (route_id r id).0 own in
      at_once _ _ (
        targets_by asked _ (filter_by_id-given id e)
          (subst (λ b. Reads (λ u. u ≡ b) (filter_by_sandbox r asked))
            (add_target-same set_pod_sandbox_id_filter _ _ (route_id r sandbox).1 own same)
            (filter_by_sandbox-given asked sandbox
              (ap given (pod_sandbox_id_filter?-set_id_filter _ req) ∙ f)))
          λ t g.
            image_kept no_image t g
              (image_filter?-set_pod_sandbox_id_filter _ _ ∙ image_filter?-set_id_filter _ req))
  targets-IsFor _ _ (by_image image none_by_id none_by_sandbox e) =
      Reads-bind _ _ _ _ (filter_by_id-none none_by_id) λ t same.
        Reads-bind (λ u. u ≡ some all_clients) _ _ _
          (subst (λ x. Reads (λ u. u ≡ some all_clients) (filter_by_sandbox r x)) (sym same)
            (filter_by_sandbox-none all_clients none_by_sandbox))
          λ u f. rw (f) (filter_by_image-given image e)

  add_target-apart :
      (change : Text → Request → Request) (j i : ℕ) (unprefixed : Text) (req' : Request)
      → j ≢ i
      → add_target change (one_client j req') (some (i, unprefixed)) ≡ none
  unfolding add_target
  add_target-apart change j i unprefixed req' apart =
      let differs : (j == i) ≡ false = ground (arith, apart) in rw (add_target, differs) refl

  -- Filters of an id and of a sandbox's id that are for different clients leave no client.
  pub targets-apart :
      (id sandbox : Text)
      → given (id_filter? req) ≡ some id
      → given (pod_sandbox_id_filter? req) ≡ some sandbox
      → (route_id r id).0 ≢ (route_id r sandbox).0
      → Reads (λ u. u ≡ none) (targets r req)
  targets-apart id sandbox e f apart =
      let own = set_id_filter (route_id r id).1 req in
      let asked = one_client (route_id r id).0 own in
      targets_by asked none (filter_by_id-given id e)
        (subst (λ b. Reads (λ u. u ≡ b) (filter_by_sandbox r asked))
          (add_target-apart set_pod_sandbox_id_filter _ _ (route_id r sandbox).1 own apart)
          (filter_by_sandbox-given asked sandbox
            (ap given (pod_sandbox_id_filter?-set_id_filter _ req) ∙ f)))
        λ t g. cc
