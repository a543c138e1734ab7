-- ===== src/Proxy/Server/EndToEnd.antt =====
-- A request about a container of another runtime than the primary one, from the server to the runtime
-- and back.
use criproxy.Prelude.{
  ℕ, suc, ◌≡◌, refl, ap, ◌∙◌, true, some, List, ◌∷◌, ◌++◌, get_elem?, set, subst,
}
use criproxy.Text.{Text, text_eq, last_index, has_prefix}
use criproxy.Naming.{ClientBase, augment_id}
use criproxy.Object.Requests.{Request, Method, method_of, container_id?, set_container_id}
use criproxy.Object.Requests
use criproxy.Object.Responses.{Response}
use criproxy.Proxy.World.{Version, cri19, cri112, World, Call, Next, ok}
use criproxy.Proxy.Client.Calls.{IsSent}
use criproxy.Proxy.Client.Returns.{IsUp, Serves}
use criproxy.Proxy.Routing.{RuntimeProxy}
use criproxy.Proxy.Routing.Route.{route_id}
use criproxy.Proxy.Routing.Places.{IsWellFormed, route_id-augment_id}
use criproxy.Proxy.Handlers.Common.{fix_response_url}
use criproxy.Proxy.Handlers.Container.{handle_container}
use criproxy.Proxy.Handlers.Returns.{Answers, handle_container_returns}
use criproxy.Proxy.Dispatch.{
  to_container, handler_for, proto_package, method_prefix, matches, wrap_object, handle,
}
use criproxy.Proxy.Dispatch.Methods.{method_name, intercept-handler_for}
use criproxy.Proxy.Server.{Running, run, server_intercept}
use criproxy.Proxy.Server.Choice.{IsFirstOfVersion, server_intercept-run}

-- The name under which a client of the version calls a method.
abbrev pub full_method_name : Version → Method → Text
full_method_name v m = method_prefix v ++ method_name m

pub full_method_name-matches :
    (r : RuntimeProxy) (v : Version) (m : Method)
    → matches (record r { cri_version = v }) (full_method_name v m) ≡ true
unfolding matches method_prefix proto_package method_name last_index has_prefix text_eq
full_method_name-matches r cri19 Requests.version = refl
full_method_name-matches r cri19 _ = refl
full_method_name-matches r cri112 Requests.version = refl
full_method_name-matches r cri112 _ = refl

module _ (ps : List Running) (j : ℕ) (p : Running) (req : Request)
    (wrapped : Request × Response) where
  abbrev method : Text
  method = full_method_name p.proxy.cri_version (method_of req)

  -- If no other events happen, the first proxy of its version, whose clients have well-formed ids, has
  -- a wrapper for the request, whose method handleContainer handles, the container's id was made by one
  -- of the other clients than the primary one, this client is up, and its runtime answers the method
  -- with the id that it was made of, then the server returns the answer with its URL completed, after
  -- exactly one call, to this runtime with this id; and of the proxies only this one's state changes.
  pub server_intercept-container :
      get_elem? ps j ≡ some p
      → IsFirstOfVersion ps j p
      → IsWellFormed p.proxy
      → wrap_object p.proxy.cri_version req ≡ some wrapped
      → handler_for (method_name (method_of req)) ≡ some to_container
      → (k : ℕ) (c : ClientBase) (x : Text) → get_elem? p.proxy.others k ≡ some c
      → container_id? wrapped.0 ≡ some (augment_id c x)
      → (next : Next) (answer : Response) → IsUp next (suc k) p.world.log p.world
      → Serves p.env next (suc k) method (set_container_id x wrapped.0) wrapped.1 p.world.log answer
      → (w : World) × (call : Call) × (server_intercept ps method req
          ≡ (ok (fix_response_url p.env answer), set ps j (record p { world = w })))
        × (w.log ≡ call ∷ p.world.log)
        × IsSent p.env (suc k) method (set_container_id x wrapped.0) call
  unfolding handle
  server_intercept-container here first wf has_wrapper is_container k c x there has_id next answer
        up served =
      let route : route_id p.proxy (augment_id c x) ≡ (suc k, x) =
        route_id-augment_id p.proxy wf k c there x in
      let (w, call, returned, logged, sent) =
        subst
          (λ (q : ℕ × Text).
            IsUp next q.0 p.world.log p.world
            → Serves p.env next q.0 method (set_container_id q.1 wrapped.0) wrapped.1 p.world.log
                answer
            → Answers (handle_container p.env p.proxy method wrapped.0 wrapped.1) p.world
                (IsSent p.env q.0 method (set_container_id q.1 wrapped.0))
                (fix_response_url p.env answer))
          route
          (λ u s.
            handle_container_returns p.env p.proxy method wrapped.0 wrapped.1 answer next p.world
              (augment_id c x) u has_id s)
          up served in
      let handled : run p method req ≡ (ok (fix_response_url p.env answer), w) =
        ap (λ m. m p.world)
          (intercept-handler_for p.env p.proxy req wrapped to_container has_wrapper is_container)
        ∙ returned in
      (
        w,
        call,
        server_intercept-run method req ps j p here
              (full_method_name-matches p.proxy p.proxy.cri_version (method_of req)) first
            ∙ ap (λ q. (q.0, set ps j (record p { world = q.1 }))) handled,
        logged,
        sent,
      )
