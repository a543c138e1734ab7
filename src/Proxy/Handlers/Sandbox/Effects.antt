-- ===== src/Proxy/Handlers/Sandbox/Effects.antt =====
-- What the handlers of pod sandboxes send to which client, and what they return, whatever the schedule.
use mathlib.Core.Option.{some-injective}
use criproxy.Prelude.{
  ℕ, zero, suc, ◌≡◌, refl, sym, ap, ◌∙◌, ◌⊎◌, inl, inr, true, some, List, ◌∷◌, get_elem?, subst,
}
use criproxy.Text.{Text}
use criproxy.Naming.{ClientBase, Annotations, annotations_match, augment_id}
use criproxy.Object.Requests.{Request, pod_sandbox_id?, set_pod_sandbox_id, annotations?}
use criproxy.Object.Responses.{Response, run_pod_sandbox_response}
use criproxy.Proxy.World.{Call, World, ok}
use criproxy.Proxy.Client.{Env}
use criproxy.Proxy.Client.Calls.{IsSent, IsAnswer, invoke_with_error_handling-Sends, IsSent-client}
use criproxy.Proxy.Logic.{
  Sends, Reads-pure, Reads-assert, Reads-weaken, Sends-after, Sends-then, Sends-weaken,
  Sends-with_call, Sends-ok,
}
use criproxy.Proxy.Routing.{RuntimeProxy, clients}
use criproxy.Proxy.Routing.Route.{
  route_id, client_for_id-Reads, client_for_annotations-Reads, MatchesAnnotations,
}
use criproxy.Proxy.Handlers.Common.{fix_response_url}
use criproxy.Proxy.Handlers.Common.Ends.{augment-Reads}
use criproxy.Proxy.Handlers.Sandbox.{
  invoke_pod_sandbox_method, handle_pod_sandbox, pod_sandbox_status, run_pod_sandbox,
  augment_pod_sandbox_id, augment_status,
}
use criproxy.Proxy.Routing.Places.{IsWellFormed, route_id-augment_id}

module _ (env : Env) (r : RuntimeProxy) (method : Text) (req : Request) (resp : Response) where
  -- A method of a pod sandbox, by its id: the call to the client that the id is routed to.
  module _ (id : Text) where
    abbrev pub place : ℕ
    place = (route_id r id).0

    -- The request with the id that the client knows.
    abbrev pub unprefixed_req : Request
    unprefixed_req = set_pod_sandbox_id (route_id r id).1 req

    invoke_pod_sandbox_method-Sends :
        pod_sandbox_id? req ≡ some id
        → Sends
            (IsSent env place method unprefixed_req)
            (λ log call out. (out.0 ≡ place) × IsAnswer env resp log call out.1)
            (invoke_pod_sandbox_method env r method req resp)
    unfolding invoke_pod_sandbox_method
    invoke_pod_sandbox_method-Sends has_id =
        Sends-after (λ x. x ≡ id) _ _ _ _
          (Reads-assert _ _ λ x e. some-injective x id (sym e ∙ has_id))
          λ x same.
            Sends-after (λ found. found ≡ route_id r x) _ _ _ _ (client_for_id-Reads r x)
              λ found e.
                let e' = e ∙ ap (route_id r) same in
                Sends-then _ (IsAnswer env resp) _ _ _
                  (Sends-weaken _ _ _ _ _
                    (invoke_with_error_handling-Sends env found.0 method
                      (set_pod_sandbox_id found.1 req) resp)
                    (λ call.
                      subst (λ f. IsSent env f.0 method (set_pod_sandbox_id f.1 req) call) e')
                    (λ log call a h. h))
                  λ log call a h. Reads-pure _ _ (ap (λ f. f.0) e', h)

    -- The handler of a pod sandbox method makes at most one call: to the client that the sandbox's
    -- id is routed to, of its method, with the id that this client knows. It makes one if it
    -- returns a response, which is the client's with its URL completed.
    pub handle_pod_sandbox-Sends :
        pod_sandbox_id? req ≡ some id
        → Sends
            (IsSent env place method unprefixed_req)
            (λ log call out.
              (answer : Response) × IsAnswer env resp log call answer
              × (out ≡ fix_response_url env answer))
            (handle_pod_sandbox env r method req resp)
    unfolding handle_pod_sandbox
    handle_pod_sandbox-Sends has_id =
        Sends-then _ _ _ _ _ (invoke_pod_sandbox_method-Sends has_id)
          λ log call out h. Reads-pure _ _ (out.1, h.1, refl)

    -- PodSandboxStatus makes at most one call: to the client that the sandbox's id is routed to, of
    -- its method, with the id that this client knows. It makes one if it returns a response, which
    -- is the client's answer with the status that this client's prefixing gives.
    pub pod_sandbox_status-Sends :
        pod_sandbox_id? req ≡ some id
        → Sends
            (IsSent env place method unprefixed_req)
            (λ log call out.
              (answer : Response) × (c : ClientBase) × IsAnswer env resp log call answer
              × (get_elem? (clients r) place ≡ some c)
              × (augment_status c answer ≡ some out))
            (pod_sandbox_status env r method req resp)
    unfolding pod_sandbox_status
    pod_sandbox_status-Sends has_id =
        Sends-then _ _ _ _ _ (invoke_pod_sandbox_method-Sends has_id) λ log call out h.
          Reads-weaken _ _ _ (augment-Reads r out.0 augment_status out.1)
            λ a k. (out.1, k.0, h.1, ap (get_elem? (clients r)) (sym h.0) ∙ k.1, k.2)

  -- RunPodSandbox, by the annotations of its request.
  module _ (annotations : Annotations) where
    -- The call to a client that the annotations match.
    abbrev pub RunSent : Call → Type 0
    RunSent call =
        (i : ℕ) × MatchesAnnotations (clients r) annotations i × IsSent env i method req call

    -- The answer with the prefix of the client that the call went to.
    abbrev pub RunAnswer : List Call → Call → Response → Type 0
    RunAnswer log call out =
        (answer : Response) × (i : ℕ) × (c : ClientBase) × (get_elem? (clients r) i ≡ some c)
        × (annotations_match c annotations ≡ true)
        × (call.client ≡ i)
        × IsAnswer env resp log call answer
        × (augment_pod_sandbox_id c answer ≡ some out)

    -- RunPodSandbox makes at most one call, to a client that the annotations match, of the request
    -- as it is. It makes one if it returns a response, in which the sandbox has the id of the
    -- client's with the client's prefix.
    pub run_pod_sandbox-Sends :
        annotations? req ≡ some annotations
        → Sends RunSent RunAnswer (run_pod_sandbox env r method req resp)
    unfolding run_pod_sandbox
    run_pod_sandbox-Sends has_annotations =
        Sends-after (λ x. x ≡ annotations) _ _ _ _
          (Reads-assert _ _ λ x e. some-injective x annotations (sym e ∙ has_annotations))
          λ x same.
            Sends-after (MatchesAnnotations (clients r) x) _ _ _ _
              (client_for_annotations-Reads r x)
              λ i matched.
                let m = subst (λ a. MatchesAnnotations (clients r) a i) same matched in
                Sends-then _ _ _ _ _
                  (Sends-weaken _ RunSent _ _ _
                    (Sends-with_call _ _ _ (invoke_with_error_handling-Sends env i method req resp))
                    (λ call h. (i, m, h)) (λ log call a h. h))
                  λ log call a h.
                    Reads-weaken _ _ _ (augment-Reads r i augment_pod_sandbox_id a) λ out k. (
                      a,
                      i,
                      k.0,
                      k.1,
                      subst (λ c. annotations_match c annotations ≡ true)
                          (some-injective m.0 k.0 (sym m.1 ∙ k.1)) m.2,
                      IsSent-client env i method req call h.0,
                      h.1,
                      k.2,
                    )

-- Where the id of a new sandbox leads: to the client that made it, with the id it has there.
abbrev pub LeadsBack : RuntimeProxy → Call → Text → Text → Type 0
LeadsBack r call id answer_id = (call.client ≡ 0) ⊎ (route_id r id ≡ (call.client, answer_id))

leads_back :
    (r : RuntimeProxy)
    → IsWellFormed r
    → (i : ℕ) (c : ClientBase) (x : Text) → get_elem? (clients r) i ≡ some c
    → (i ≡ 0) ⊎ (route_id r (augment_id c x) ≡ (i, x))
leads_back r wf zero c x here = inl refl
leads_back r wf (suc k) c x here = inr (route_id-augment_id r wf k c here x)

augment_pod_sandbox_id-eq-some :
    (c : ClientBase) (answer out : Response)
    → augment_pod_sandbox_id c answer ≡ some out
    → (x : Text) × (answer ≡ run_pod_sandbox_response (record { pod_sandbox_id = x }))
      × (out ≡ run_pod_sandbox_response (record { pod_sandbox_id = augment_id c x }))
augment_pod_sandbox_id-eq-some c (run_pod_sandbox_response a) out e =
    (a.pod_sandbox_id, refl, sym (some-injective _ _ e))
augment_pod_sandbox_id-eq-some c _ out e = cc

-- In a proxy whose clients have well-formed ids, a sandbox that RunPodSandbox returns came with one
-- call, to a client that the annotations match; and unless that is the primary client, every later
-- request with the sandbox's id is routed to the same client, with the id that the sandbox has
-- there.
pub run_pod_sandbox-LeadsBack :
    (env : Env) (r : RuntimeProxy) (method : Text) (req : Request) (resp out : Response)
    (annotations : Annotations) (w w' : World)
    → IsWellFormed r
    → annotations? req ≡ some annotations
    → run_pod_sandbox env r method req resp w ≡ (ok out, w')
    → (call : Call) × (id answer_id : Text) × (w'.log ≡ call ∷ w.log)
      × MatchesAnnotations (clients r) annotations call.client
      × IsAnswer env resp w.log call
          (run_pod_sandbox_response (record { pod_sandbox_id = answer_id }))
      × (out ≡ run_pod_sandbox_response (record { pod_sandbox_id = id }))
      × LeadsBack r call id answer_id
run_pod_sandbox-LeadsBack env r method req resp out annotations w w' wf h e =
    let (call, logged, sent, returned) =
      Sends-ok _ _ _ (run_pod_sandbox-Sends env r method req resp annotations h) w w' out e in
    let (answer, i, c, here, matched, at, answered, augmented) = returned in
    let (answer_id, is_answer, is_out) = augment_pod_sandbox_id-eq-some c answer out augmented in
    (
      call,
      augment_id c answer_id,
      answer_id,
      logged,
      (c, ap (get_elem? (clients r)) at ∙ here, matched),
      subst (IsAnswer env resp w.log call) is_answer answered,
      is_out,
      rw at (leads_back r wf i c answer_id here),
    )
