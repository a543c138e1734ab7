-- ===== src/Proxy/Client/Quiet.antt =====
-- invoke of a client that is up, where nothing else happens: one call, and what the runtime leaves.
use criproxy.Prelude.{
  [], suc, false, Bool, ℕ, ◌≡◌, refl, ap, ◌∙◌, true, Option, none, some, List, ◌∷◌, ◌++◌, length,
  arith, inl, inr, Bool-cases,
}
use criproxy.Text.{Text, replace_first}
use criproxy.Errors.{Error, is_unavailable}
use criproxy.Connection.{connected}
use criproxy.Object.Requests.{Request, wrap_request}
use criproxy.Object.Responses.{Response}
use criproxy.Object.Wrap.{wrap_response}
use criproxy.Proxy.World.{cri112, Next, api_client, upgrading_client, Slot, Call, World, ok, M}
use criproxy.Proxy.Client.{
  Env, same_conn, legacy_package, new_package, rpc_call, check_conn, api_invoke, downgrade_to,
  invoke_next, invoke,
}
use criproxy.Proxy.Client.Calls.{SentAs, IsSent}
use criproxy.Proxy.Quiet.{quiet, on_slot-quiet, >>=-quiet}

same_conn_refl : (c : Option ℕ) → same_conn c c ≡ true
same_conn_refl none = refl
same_conn_refl (some a) = ground arith

module _ (env : Env) where
  -- The end of a call of an upgradingClient: after an error the response is as it was.
  abbrev pub Downgrades : Response → Response → Option Error → Response → Type 0
  Downgrades resp reply none left =
      (d : Response) × (env.downgrade_response reply ≡ some d) × (wrap_response resp d ≡ some left)
  Downgrades resp reply (some e) left = left ≡ resp

  -- What a client behind an autoClient makes of what the runtime leaves in the response, and its
  -- error.
  abbrev pub Leaves :
      Next → ℕ → Option ℕ → Text → Request → Response → List Call → Response → Option Error → Type 0
  Leaves (api_client v) i conn method req resp log left e =
      env.serve log (record { client = i; conn = conn; method = method; req = req }) resp
      ≡ (left, e)
  Leaves (upgrading_client next) i conn method req resp log left e =
      (q : Request) × (u reply : Response) × (env.upgrade_request req ≡ some q)
      × (env.upgrade_response resp ≡ some u)
      × Leaves next i conn (replace_first method legacy_package new_package) (wrap_request cri112 q)
          u log reply e
      × Downgrades resp reply e left

  module _ (before : List Slot) (s : Slot) (after : List Slot)
      (up : s.connection.state ≡ connected) where
    abbrev i : ℕ
    i = length before

    abbrev at_log : List Call → World
    at_log log = quiet (before ++ s ∷ after) log

    check_conn-quiet :
        (left : Response) (e : Option Error) (log : List Call)
        → check_conn env i s.connection.conn (left, e) (at_log log) ≡ (ok (left, e), at_log log)
    unfolding check_conn
    check_conn-quiet left none log = refl
    check_conn-quiet left (some e) log = elim (Bool-cases (is_unavailable e)) [
      | inr other ↦ rw (other) refl
      | inl down ↦ rw (down) (
          >>=-quiet _ _ _ _ s.connection.conn (on_slot-quiet before s after log _ _)
          ∙ rw (same_conn_refl s.connection.conn) refl)
    ]

    abbrev called : Text → Request → Call
    called method req = record { client = i; conn = s.connection.conn; method = method; req = req }

    api_invoke-quiet :
        (method : Text) (req : Request) (resp left : Response) (e : Option Error) (log : List Call)
        → env.serve log (called method req) resp ≡ (left, e)
        → api_invoke env i method req resp (at_log log)
          ≡ (ok (left, e), at_log (called method req ∷ log))
    unfolding api_invoke rpc_call
    api_invoke-quiet method req resp left e log served =
        >>=-quiet _ _ _ (at_log log) (some s.connection.conn)
          (on_slot-quiet before s after log _ _ ∙ rw (up) refl)
        ∙ (>>=-quiet _ _ _ (at_log (called method req ∷ log)) (left, e)
              (ap (λ r. (ok r, at_log (called method req ∷ log))) served)
            ∙ check_conn-quiet left e (called method req ∷ log))

    -- A request with its result, after one call made for the method and the request.
    abbrev pub CallsOnce : {A : Type 0} → Next → Text → Request → M A → List Call → A → Type 0
    CallsOnce next method req m log a =
        (call : Call) × SentAs env next i method req call
        × (m (at_log log) ≡ (ok a, at_log (call ∷ log)))

    downgrade_to-quiet :
        (resp reply left : Response) (e : Option Error) (log : List Call)
        → Downgrades resp reply e left
        → downgrade_to env resp (reply, e) (at_log log) ≡ (ok (left, e), at_log log)
    unfolding downgrade_to
    downgrade_to-quiet resp reply left (some x) log same = rw (same) refl
    downgrade_to-quiet resp reply left none log (d, down, wrapped) =
        >>=-quiet _ _ _ (at_log log) d (rw (down) refl)
        ∙ >>=-quiet _ _ _ (at_log log) left (rw (wrapped) refl)

    invoke_next-quiet :
        (next : Next) (method : Text) (req : Request) (resp left : Response) (e : Option Error)
        (log : List Call)
        → Leaves next i s.connection.conn method req resp log left e
        → CallsOnce next method req (invoke_next env next i method req resp) log (left, e)
    unfolding invoke_next
    invoke_next-quiet (api_client v) method req resp left e log served =
        (called method req, (refl, refl, refl), api_invoke-quiet method req resp left e log served)
    invoke_next-quiet (upgrading_client next) method req resp left e log
          (q, u, reply, hq, hu, h, down) =
        let (call, sent, made) =
          invoke_next-quiet next (replace_first method legacy_package new_package)
            (wrap_request cri112 q) u reply e log h in
        (
          call,
          (q, hq, sent),
          >>=-quiet _ _ _ (at_log log) q (rw (hq) refl)
              ∙ (>>=-quiet _ _ _ (at_log log) u (rw (hu) refl)
                  ∙ (>>=-quiet _ _ _ _ _ made
                      ∙ downgrade_to-quiet resp reply left e (call ∷ log) down)),
        )

    pub invoke-quiet :
        (next : Next) (method : Text) (req : Request) (resp left : Response) (e : Option Error)
        (log : List Call)
        → s.next ≡ some next
        → Leaves next i s.connection.conn method req resp log left e
        → CallsOnce next method req (invoke env i method req resp) log (left, e)
    unfolding invoke
    invoke-quiet next method req resp left e log behind h =
        let (call, sent, made) = invoke_next-quiet next method req resp left e log h in
        (
          call,
          sent,
          >>=-quiet _ _ _ (at_log log) (some (some next))
                (on_slot-quiet before s after log _ _ ∙ rw (up, behind) refl)
              ∙ (>>=-quiet _ _ _ (at_log log) next refl ∙ made),
        )

-- The calls of a loop over the clients from a place on, the newest first: one to each client that is
-- asked, in the clients' order, of the method and the request.
abbrev pub IsAsked : Env → Text → Request → ℕ → List Bool → List Call → Type 0
IsAsked env method req k [] new = new ≡ []
IsAsked env method req k (false ∷ asks) new = IsAsked env method req (suc k) asks new
IsAsked env method req k (true ∷ asks) new =
    (call : Call) × (later : List Call) × (new ≡ later ++ call ∷ [])
    × IsSent env k method req call
    × IsAsked env method req (suc k) asks later
