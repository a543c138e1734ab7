-- ===== src/Proxy/Handlers/Container/Effects.antt =====
-- What the container handlers send to which client, and what they return, whatever the schedule.
use mathlib.Core.Option.{some-injective}
use criproxy.Prelude.{ℕ, ◌≡◌, refl, sym, ap, subst, ◌∙◌, Option, some, List, get_elem?}
use criproxy.Text.{Text}
use criproxy.Naming.{ClientBase}
use criproxy.Object.Requests.{Request, container_id?, set_container_id}
use criproxy.Object.Responses.{Response}
use criproxy.Proxy.World.{Call, ◌>>=◌, assert}
use criproxy.Proxy.Client.{Env}
use criproxy.Proxy.Client.Calls.{IsSent, IsAnswer, invoke_with_error_handling-Sends}
use criproxy.Proxy.Logic.{
  Sends, Reads-pure, Reads-assert, Reads-weaken, Sends-after, Sends-then, Sends-weaken,
}
use criproxy.Proxy.Routing.{RuntimeProxy, clients}
use criproxy.Proxy.Routing.Route.{route_id, client_for_id-Reads}
use criproxy.Proxy.Handlers.Common.Ends.{augment-Reads}
use criproxy.Proxy.Handlers.Common.{with_client, fix_response_url}
use criproxy.Proxy.Handlers.Container.{
  invoke_container_method, handle_container, container_status, container_stats,
  augment_container_status, augment_container_stats,
}

module _ (env : Env) (r : RuntimeProxy) (method : Text) (req : Request) (resp : Response) where
  -- A method of a container, by its id: the call to the client that the id is routed to.
  module _ (id : Text) where
    abbrev pub place : ℕ
    place = (route_id r id).0

    -- The request with the id that the client knows.
    abbrev pub unprefixed_req : Request
    unprefixed_req = set_container_id (route_id r id).1 req

    pub invoke_container_method-Sends :
        container_id? req ≡ some id
        → Sends
            (IsSent env place method unprefixed_req)
            (λ log call out. (out.0 ≡ place) × IsAnswer env resp log call out.1)
            (invoke_container_method env r method req resp)
    unfolding invoke_container_method
    invoke_container_method-Sends has_id =
        Sends-after (λ x. x ≡ id) _ _ _ _
          (Reads-assert _ _ λ x e. some-injective x id (sym e ∙ has_id))
          λ x same.
            Sends-after (λ found. found ≡ route_id r x) _ _ _ _ (client_for_id-Reads r x)
              λ found e.
                let e' = e ∙ ap (route_id r) same in
                Sends-then _ (IsAnswer env resp) _ _ _
                  (Sends-weaken _ _ _ _ _
                    (invoke_with_error_handling-Sends env found.0 method
                      (set_container_id found.1 req) resp)
                    (λ call. subst (λ f. IsSent env f.0 method (set_container_id f.1 req) call) e')
                    (λ log call a h. h))
                  λ log call a h. Reads-pure _ _ (ap (λ f. f.0) e', h)

    -- The handler of a container method makes at most one call: to the client that the container's
    -- id is routed to, of its method, with the id that this client knows. It makes one if it
    -- returns a response, which is the client's with its URL completed.
    pub handle_container-Sends :
        container_id? req ≡ some id
        → Sends
            (IsSent env place method unprefixed_req)
            (λ log call out.
              (answer : Response) × IsAnswer env resp log call answer
              × (out ≡ fix_response_url env answer))
            (handle_container env r method req resp)
    unfolding handle_container
    handle_container-Sends has_id =
        Sends-then _ _ _ _ _ (invoke_container_method-Sends has_id)
          λ log call out h. Reads-pure _ _ (out.1, h.1, refl)

    -- What the client at the place makes of an answer of its runtime.
    abbrev pub Augmented :
        (ClientBase → Response → Option Response) → List Call → Call → Response → Type 0
    Augmented augment log call out =
        (answer : Response) × (c : ClientBase) × IsAnswer env resp log call answer
        × (get_elem? (clients r) place ≡ some c)
        × (augment c answer ≡ some out)

    Augmented-Sends :
        (augment : ClientBase → Response → Option Response)
        → container_id? req ≡ some id
        → Sends (IsSent env place method unprefixed_req) (Augmented augment) (do
          (i, resp') ← invoke_container_method env r method req resp
          out ← with_client r i (λ c. augment c resp')
          assert out)
    Augmented-Sends augment has_id =
        Sends-then _ _ _ _ _ (invoke_container_method-Sends has_id) λ log call out h.
          Reads-weaken _ _ _ (augment-Reads r out.0 augment out.1)
            λ a k. (out.1, k.0, h.1, ap (get_elem? (clients r)) (sym h.0) ∙ k.1, k.2)

    -- ContainerStatus makes at most one call: to the client that the container's id is routed to, of
    -- its method, with the id that this client knows. It makes one if it returns a response, which
    -- is the client's answer with the status that this client's prefixing gives.
    pub container_status-Sends :
        container_id? req ≡ some id
        → Sends
            (IsSent env place method unprefixed_req)
            (Augmented augment_container_status)
            (container_status env r method req resp)
    unfolding container_status
    container_status-Sends has_id = Augmented-Sends augment_container_status has_id

    -- ContainerStats makes at most one call: to the client that the container's id is routed to, of
    -- its method, with the id that this client knows. It makes one if it returns a response, which
    -- is the client's answer with the statistics that this client's prefixing gives.
    pub container_stats-Sends :
        container_id? req ≡ some id
        → Sends
            (IsSent env place method unprefixed_req)
            (Augmented augment_container_stats)
            (container_stats env r method req resp)
    unfolding container_stats
    container_stats-Sends has_id = Augmented-Sends augment_container_stats has_id
