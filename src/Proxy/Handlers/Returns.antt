-- ===== src/Proxy/Handlers/Returns.antt =====
-- Requests about an object of a runtime that is up and answers get a response, after one call.
use criproxy.Prelude.{
  ℕ, ◌≡◌, ◌≢◌, refl, sym, ◌∙◌, inl, inr, false, Bool-cases, Option, some, List, [], ◌∷◌, ap, subst,
  get_elem?, ==_iff, if◌then◌else◌,
}
use criproxy.Text.{Text, text_eq, text_eq_iff}
use criproxy.Errors.{no_image_specified}
use criproxy.Naming.{ClientBase, Annotations}
use criproxy.Object.Requests.{
  Request, pod_sandbox_id?, set_pod_sandbox_id, container_id?, set_container_id, image?, set_image,
  annotations?,
}
use criproxy.Object.Responses.{Response}
use criproxy.Proxy.World.{Next, World, Call, ok, M, ◌>>=◌, fail, assert}
use criproxy.Proxy.Client.{Env}
use criproxy.Proxy.Client.Calls.{IsSent}
use criproxy.Proxy.Client.Returns.{
  Returns, Returns-then, IsUp, Serves, assert_returns, invoke_with_error_handling_returns,
}
use criproxy.Proxy.Logic.{Sends, Sends-ok}
use criproxy.Proxy.Routing.{RuntimeProxy, clients}
use criproxy.Proxy.Routing.Route.{route_id, route_image}
use criproxy.Proxy.Routing.Returns.{
  client_for_id_returns, client_for_image_returns, client_for_annotations_returns,
  route_annotations_from,
}
use criproxy.Proxy.Handlers.Common.{with_client, fix_response_url}
use criproxy.Proxy.Handlers.Container.{
  invoke_container_method, handle_container, create_container, unprefix_container_image,
  augment_container_id,
}
use criproxy.Proxy.Handlers.Container.Create.{HasImageFor, CreateSent, create_container-Sends}
use criproxy.Proxy.Handlers.Container.Effects.{handle_container-Sends}
use criproxy.Proxy.Handlers.Sandbox.{
  invoke_pod_sandbox_method, handle_pod_sandbox, run_pod_sandbox, augment_pod_sandbox_id,
}
use criproxy.Proxy.Handlers.Sandbox.Effects.{
  handle_pod_sandbox-Sends, RunSent, run_pod_sandbox-Sends,
}

-- The request returns this response, after exactly one call, which is of this kind.
abbrev pub Answers : M Response → World → (Call → Type 0) → Response → Type 0
Answers m w P out =
    (w' : World) × (call : Call) × (m w ≡ (ok out, w')) × (w'.log ≡ call ∷ w.log) × P call

answers :
    (P : Call → Type 0) (R : List Call → Call → Response → Type 0) (m : M Response) (w : World)
    (out : Response)
    → Sends P R m
    → Returns m w (λ a v. (a ≡ out) × Unit)
    → Answers m w P out
answers P R m w out s (a, w', e, (k, _)) =
    let returned = e ∙ ap (λ x. (ok x, w')) k in
    let (call, logged, sent, _) = Sends-ok P R m s w w' out returned in
    (w', call, returned, logged, sent)

-- The prefix of a client that is there, on a response that has a place for it.
augment_returns :
    (r : RuntimeProxy) (i : ℕ) (augment : ClientBase → Response → Option Response) (c : ClientBase)
    (answer out : Response) (w : World)
    → get_elem? (clients r) i ≡ some c
    → augment c answer ≡ some out
    → Returns (with_client r i (λ c. augment c answer) >>= assert) w (λ a v. (a ≡ out) × Unit)
augment_returns r i augment c answer out w here e =
    Returns-then _ _ _ (some out) (λ _. Unit) _ (some out, w, rw (here, e), (refl, tt))
      λ v _. (out, v, refl, (refl, tt))

module _ (env : Env) (r : RuntimeProxy) (method : Text) (req : Request) (resp answer : Response)
    (next : Next) (w : World) where
  module _ (id : Text) (up : IsUp next (route_id r id).0 w.log w) where
    -- If no other events happen, the client that the container's id is routed to is up, and its
    -- runtime answers the method with the id that this client knows, then the handler of a container
    -- method makes exactly one call, that one, and returns the answer with its URL completed.
    pub handle_container_returns :
        container_id? req ≡ some id
        → Serves env next
            (route_id r id).0
            method
            (set_container_id (route_id r id).1 req)
            resp
            w.log
            answer
        → Answers
            (handle_container env r method req resp)
            w
            (IsSent env (route_id r id).0 method (set_container_id (route_id r id).1 req))
            (fix_response_url env answer)
    unfolding handle_container invoke_container_method
    handle_container_returns has_id served =
        answers _ _ _ w _ (handle_container-Sends env r method req resp id has_id) (
          Returns-then _ _ _ ((route_id r id).0, answer) (λ _. Unit) _
            (Returns-then _ _ _ id _ _ (assert_returns up _ id has_id) λ w1 u1.
              Returns-then _ _ _ (route_id r id) _ _ (client_for_id_returns r id u1) λ w2 u2.
                Returns-then _ _ _ answer _ _
                  (invoke_with_error_handling_returns env method _ resp answer u2 served)
                  λ w3 _. (((route_id r id).0, answer), w3, refl, (refl, tt)))
            λ w1 _. (fix_response_url env answer, w1, refl, (refl, tt)))

    -- If no other events happen, the client that the sandbox's id is routed to is up, and its runtime
    -- answers the method with the id that this client knows, then the handler of a pod sandbox method
    -- makes exactly one call, that one, and returns the answer with its URL completed.
    pub handle_pod_sandbox_returns :
        pod_sandbox_id? req ≡ some id
        → Serves env next
            (route_id r id).0
            method
            (set_pod_sandbox_id (route_id r id).1 req)
            resp
            w.log
            answer
        → Answers
            (handle_pod_sandbox env r method req resp)
            w
            (IsSent env (route_id r id).0 method (set_pod_sandbox_id (route_id r id).1 req))
            (fix_response_url env answer)
    unfolding handle_pod_sandbox invoke_pod_sandbox_method
    handle_pod_sandbox_returns has_id served =
        answers _ _ _ w _ (handle_pod_sandbox-Sends env r method req resp id has_id) (
          Returns-then _ _ _ ((route_id r id).0, answer) (λ _. Unit) _
            (Returns-then _ _ _ id _ _ (assert_returns up _ id has_id) λ w1 u1.
              Returns-then _ _ _ (route_id r id) _ _ (client_for_id_returns r id u1) λ w2 u2.
                Returns-then _ _ _ answer _ _
                  (invoke_with_error_handling_returns env method _ resp answer u2 served)
                  λ w3 _. (((route_id r id).0, answer), w3, refl, (refl, tt)))
            λ w1 _. (fix_response_url env answer, w1, refl, (refl, tt)))

  -- If no other events happen, some client is the first that the annotations match and is up, and
  -- its runtime answers the request, then RunPodSandbox makes exactly one call, to a client that the
  -- annotations match, and returns the answer with that client's prefix on the sandbox's id.
  pub run_pod_sandbox_returns :
      (annotations : Annotations) (i : ℕ) (c : ClientBase) (out : Response)
      → annotations? req ≡ some annotations
      → route_annotations_from 0 (clients r) annotations ≡ some i
      → get_elem? (clients r) i ≡ some c
      → IsUp next i w.log w
      → Serves env next i method req resp w.log answer
      → augment_pod_sandbox_id c answer ≡ some out
      → Answers
          (run_pod_sandbox env r method req resp)
          w
          (RunSent env r method req resp annotations)
          out
  unfolding run_pod_sandbox
  run_pod_sandbox_returns annotations i c out has_annotations route here up served e =
      answers _ _ _ w _ (run_pod_sandbox-Sends env r method req resp annotations has_annotations) (
        Returns-then _ _ _ annotations _ _ (assert_returns up _ annotations has_annotations)
          λ w1 u1.
            Returns-then _ _ _ i _ _ (client_for_annotations_returns r annotations route u1)
              λ w2 u2.
                Returns-then _ _ _ answer _ _
                  (invoke_with_error_handling_returns env method req resp answer u2 served)
                  λ w3 _. augment_returns r i augment_pod_sandbox_id c answer out w3 here e)

  unprefix_container_image_returns :
      (i : ℕ) (image : Text) (req' sent : Request) (v : World)
      → HasImageFor env r method i image req' sent
      → IsUp next i w.log v
      → Returns
          (unprefix_container_image env r method i image req')
          v
          (λ a v'. (a ≡ sent) × IsUp next i w.log v')
  unfolding unprefix_container_image
  unprefix_container_image_returns i image req' sent v (inl (d, e)) u =
      rw d (req', v, refl, (sym e, u))
  unprefix_container_image_returns i image req' sent v (inr (d, place, e)) u = rw d (
      Returns-then _ _ _ (some (route_image r image)) _ _
        (client_for_image_returns r image false (subst (λ p. IsUp next p w.log v) (sym place) u))
        λ v' u'. rw ((==_iff (route_image r image).0 i).1 place) (
          set_image (route_image r image).1 req',
          v',
          refl,
          (sym e, subst (λ p. IsUp next p w.log v') place u'),
        ))

  -- If no other events happen, the client that the sandbox's id is routed to is up, the image is not
  -- empty and is a digest or is routed to the same client, and its runtime answers the request with
  -- the sandbox's id and the image that this client knows, then CreateContainer makes exactly one
  -- call, that one, and returns the answer with that client's prefix on the container's id.
  pub create_container_returns :
      (id image : Text) (c : ClientBase) (sent : Request) (out : Response)
      → pod_sandbox_id? req ≡ some id
      → image? req ≡ some image
      → image ≢ []
      → HasImageFor env r method
          (route_id r id).0
          image
          (set_pod_sandbox_id (route_id r id).1 req)
          sent
      → get_elem? (clients r) (route_id r id).0 ≡ some c
      → IsUp next (route_id r id).0 w.log w
      → Serves env next (route_id r id).0 method sent resp w.log answer
      → augment_container_id c answer ≡ some out
      → Answers
          (create_container env r method req resp)
          w
          (CreateSent env r method req resp id image)
          out
  unfolding create_container
  create_container_returns id image c sent out has_id has_image nonempty h here up served e =
      answers _ _ _ w _ (create_container-Sends env r method req resp id image has_id has_image) (
        Returns-then _ _ _ id _ _ (assert_returns up _ id has_id) λ w1 u1.
          Returns-then _ _ _ (route_id r id) _ _ (client_for_id_returns r id u1) λ w2 u2.
            Returns-then _ _ _ image _ _ (assert_returns u2 _ image has_image) λ w3 u3.
              Returns-then _ _ _ sent _ _ (given_image u3) λ w4 u4.
                Returns-then _ _ _ answer _ _
                  (invoke_with_error_handling_returns env method sent resp answer u4 served)
                  λ w5 _.
                    augment_returns r (route_id r id).0 augment_container_id c answer out w5 here e)
    where
      given_image :
          {v : World}
          → IsUp next (route_id r id).0 w.log v
          → Returns
              (if text_eq image []
                then fail no_image_specified
                else unprefix_container_image env r method
                    (route_id r id).0
                    image
                    (set_pod_sandbox_id (route_id r id).1 req))
              v
              (λ a v'. (a ≡ sent) × IsUp next (route_id r id).0 w.log v')
      given_image {v} u = elim (Bool-cases (text_eq image [])) [
        | inl t ↦ absurd (nonempty ((text_eq_iff image []).0 t))
        | inr f ↦ rw f (unprefix_container_image_returns _ image _ sent v h u)
      ]
