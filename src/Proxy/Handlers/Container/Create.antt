-- ===== src/Proxy/Handlers/Container/Create.antt =====
-- What CreateContainer sends to which client, and what it returns, whatever the schedule.
use mathlib.Core.Option.{some-injective}
use criproxy.Prelude.{
  ℕ, ◌≡◌, refl, sym, ap, ◌∙◌, ◌⊎◌, inl, inr, ◌≢◌, true, false, Option, none, some, List, [],
  get_elem?, if◌then◌else◌, Bool-cases, ◌==◌, ==_iff, subst,
}
use criproxy.Text.{Text, text_eq, text_eq_iff}
use criproxy.Errors.{no_image_specified, wrong_runtime}
use criproxy.Naming.{ClientBase}
use criproxy.Object.Requests.{Request, pod_sandbox_id?, set_pod_sandbox_id, image?, set_image}
use criproxy.Object.Responses.{Response}
use criproxy.Proxy.World.{Call, ◌>>=◌, pure, fail, assert}
use criproxy.Proxy.Client.{Env, invoke_with_error_handling}
use criproxy.Proxy.Client.Calls.{IsSent, IsAnswer, invoke_with_error_handling-Sends}
use criproxy.Proxy.Logic.{
  Reads, Sends, Reads-bind, Reads-pure, Reads-fail, Reads-assert, Reads-weaken, Sends-after,
  Sends-then, Sends-weaken,
}
use criproxy.Proxy.Routing.{RuntimeProxy, clients}
use criproxy.Proxy.Routing.Route.{
  route_id, route_image, client_for_id-Reads, client_for_image-Reads, IsImageClient,
}
use mathlib.Core.Bool.{false≢true}
use criproxy.Proxy.Handlers.Common.{with_client}
use criproxy.Proxy.Handlers.Common.Ends.{augment-Reads}
use criproxy.Proxy.Handlers.Container.{
  create_container, unprefix_container_image, augment_container_id,
}

module _ (env : Env) (r : RuntimeProxy) (method : Text) where
  -- The request with its image as the client at the place knows it: a digest as it is, any other
  -- image if it is routed to that place.
  abbrev pub HasImageFor : ℕ → Text → Request → Request → Type 0
  HasImageFor i image req out =
      ((env.is_digest image ≡ true) × (out ≡ req))
      ⊎ ((env.is_digest image ≡ false)
          × ((route_image r image).0 ≡ i)
          × (out ≡ set_image (route_image r image).1 req))

  placed_image-Reads :
      (i : ℕ) (image : Text) (req : Request)
      → env.is_digest image ≡ false
      → (found : Option (ℕ × Text)) → IsImageClient (route_image r image) false found
      → Reads (HasImageFor i image req) (elim found [
        | none ↦ fail (wrong_runtime image)
        | some (j, unprefixed) ↦
            if j == i then pure (set_image unprefixed req) else fail (wrong_runtime image)
      ])
  placed_image-Reads i image req d none h = Reads-fail _ _
  placed_image-Reads i image req d (some found) h = elim (Bool-cases (found.0 == i)) [
    | inl e ↦ rw e (
        Reads-pure _ _
          (inr (d, sym (ap (λ f. f.0) h) ∙ (==_iff found.0 i).0 e, ap (λ f. set_image f.1 req) h)))
    | inr e ↦ rw e (Reads-fail _ _)
  ]

  unprefix_container_image-Reads :
      (i : ℕ) (image : Text) (req : Request)
      → Reads (HasImageFor i image req) (unprefix_container_image env r method i image req)
  unfolding unprefix_container_image
  unprefix_container_image-Reads i image req = elim (Bool-cases (env.is_digest image)) [
    | inl e ↦ rw e (Reads-pure _ req (inl (e, refl)))
    | inr e ↦ rw e (
        Reads-bind _ _ _ _ (client_for_image-Reads r image false)
          λ found h. placed_image-Reads i image req e found h)
  ]

  nonempty_image-Reads :
      (i : ℕ) (image : Text) (req : Request)
      → Reads
          (λ out. (image ≢ []) × HasImageFor i image req out)
          (if text_eq image []
            then fail no_image_specified
            else unprefix_container_image env r method i image req)
  nonempty_image-Reads i image req = elim (Bool-cases (text_eq image [])) [
    | inl e ↦ rw e (Reads-fail _ _)
    | inr e ↦ rw e (
        Reads-weaken _ _ _ (unprefix_container_image-Reads i image req)
          λ out h. (λ nil. false≢true (sym e ∙ (text_eq_iff image []).1 nil), h))
  ]

  module _ (req : Request) (resp : Response) (id image : Text) where
    -- What is sent for a container: the request for the client of its sandbox.
    abbrev pub CreateReq : Request → Type 0
    CreateReq out =
        (image ≢ [])
        × HasImageFor (route_id r id).0 image (set_pod_sandbox_id (route_id r id).1 req) out

    abbrev pub CreateSent : Call → Type 0
    CreateSent call =
        (sent : Request) × CreateReq sent × IsSent env (route_id r id).0 method sent call

    abbrev pub CreateAnswer : List Call → Call → Response → Type 0
    CreateAnswer log call out =
        (answer : Response) × (c : ClientBase) × IsAnswer env resp log call answer
        × (get_elem? (clients r) (route_id r id).0 ≡ some c)
        × (augment_container_id c answer ≡ some out)

    -- The part of createContainer after its sandbox was routed.
    placed-Sends :
        (found : ℕ × Text)
        → found ≡ route_id r id
        → image? req ≡ some image
        → Sends CreateSent CreateAnswer (do
          image ← assert (image? req)
          req' ←
              if text_eq image []
              then fail no_image_specified
              else unprefix_container_image env r method found.0 image
                  (set_pod_sandbox_id found.1 req)
          resp' ← invoke_with_error_handling env found.0 method req' resp
          out ← with_client r found.0 (λ c. augment_container_id c resp')
          assert out)
    placed-Sends found e has_image =
        Sends-after (λ x. x ≡ image) _ _ _ _
          (Reads-assert _ _ λ x ex. some-injective x image (sym ex ∙ has_image))
          λ x same.
            Sends-after CreateReq _ _ _ _
              (Reads-weaken _ _ _ (nonempty_image-Reads found.0 x (set_pod_sandbox_id found.1 req))
                λ out h. at_route out (subst (λ y. FoundReq y found out) same h))
              λ out h.
                Sends-then _ (IsAnswer env resp) _ _ _
                  (Sends-weaken _ _ _ _ _
                    (invoke_with_error_handling-Sends env found.0 method out resp)
                    (λ call k. (out, h, subst (λ f. IsSent env f.0 method out call) e k))
                    (λ log call a k. k))
                  λ log call a k.
                    Reads-weaken _ _ _ (augment-Reads r found.0 augment_container_id a) λ b l.
                      (a, l.0, k, subst (λ f. get_elem? (clients r) f.0 ≡ some l.0) e l.1, l.2)
      where
        FoundReq : Text → ℕ × Text → Request → Type 0
        FoundReq y f out = (y ≢ []) × HasImageFor f.0 y (set_pod_sandbox_id f.1 req) out

        at_route : (out : Request) → FoundReq image found out → CreateReq out
        at_route out = subst (λ f. FoundReq image f out) e

    -- CreateContainer makes at most one call: to the client that the sandbox's id is routed to, and
    -- only if the image is not empty and is a digest or is routed to the same client. The sandbox's
    -- id and the image are those that this client knows. If it returns a response there was a call,
    -- and the id of the new container is the client's with its prefix.
    pub create_container-Sends :
        pod_sandbox_id? req ≡ some id
        → image? req ≡ some image
        → Sends CreateSent CreateAnswer (create_container env r method req resp)
    unfolding create_container
    create_container-Sends has_id has_image =
        Sends-after (λ x. x ≡ id) _ _ _ _
          (Reads-assert _ _ λ x e. some-injective x id (sym e ∙ has_id))
          λ x same.
            Sends-after (λ found. found ≡ route_id r x) _ _ _ _ (client_for_id-Reads r x)
              λ found e. placed-Sends found (e ∙ ap (route_id r) same) has_image
