-- ===== src/Proxy/Client/Answered.antt =====
-- What invoke leaves in a response, by the kinds of clients, whatever the schedule.
use criproxy.Prelude.{ℕ, ◌≡◌, refl, ◌⊎◌, inl, inr, Option, none, some, Bool-cases, List}
use criproxy.Text.{Text, replace_first}
use criproxy.Errors.{Error, is_unavailable, not_connected}
use criproxy.Object.Requests.{Request, wrap_request}
use criproxy.Object.Responses.{Response}
use criproxy.Object.Wrap.{wrap_response}
use criproxy.Proxy.World.{cri112, Next, api_client, upgrading_client, Call, ◌>>=◌, pure, assert}
use criproxy.Proxy.Client.{
  Env, legacy_package, new_package, rpc_call, check_conn, api_invoke, downgrade_to, invoke_next,
  invoke,
}
use criproxy.Proxy.Logic.Sections.{Any}
use criproxy.Proxy.Logic.Unfailing.{
  Unfailing, Unfailing-bind, Unfailing-pure, Unfailing-assert, Unfailing-weaken, on_slot-Unfailing,
}

-- A response that is as P says, or one that was left as it was beside an error.
abbrev pub Leaves : (Response → Type 0) → Response → Response × Option Error → Type 0
Leaves P resp (out, none) = P out
Leaves P resp (out, some e) = (out ≡ resp) ⊎ P out

module _ (env : Env) where
  -- The response is what a runtime left in the one given: an apiClient's in a call of the method with
  -- the request, an upgradingClient's in such a call of the newer method, with the conversions of the
  -- request and of the response; what it left is downgraded.
  unfoldable pub Answered : Next → ℕ → Text → Request → Response → Response → Type 0
  Answered (api_client v) i method req resp out =
      (log : List Call) × (conn : Option ℕ) × (out
        ≡ (env.serve log (record { client = i; conn = conn; method = method; req = req }) resp).0)
  Answered (upgrading_client next) i method req resp out =
      (req' : Request) × (resp' : Response) × (reply : Response) × (downgraded : Response)
      × (env.upgrade_request req ≡ some req')
      × (env.upgrade_response resp ≡ some resp')
      × Answered next i (replace_first method legacy_package new_package) (wrap_request cri112 req')
          resp' reply
      × (env.downgrade_response reply ≡ some downgraded)
      × (wrap_response resp downgraded ≡ some out)

  check_conn-Leaves :
      (P : Response → Type 0) (i : ℕ) (conn : Option ℕ) (resp : Response)
      (r : Response × Option Error)
      → P r.0
      → Unfailing (Leaves P resp) (check_conn env i conn r)
  unfolding check_conn
  check_conn-Leaves P i conn resp (out, none) p = Unfailing-pure _ (out, none) p
  check_conn-Leaves P i conn resp (out, some e) p = elim (Bool-cases (is_unavailable e)) [
    | inl down ↦
        rw down
          (Unfailing-bind Any _ _ _ (on_slot-Unfailing i _ _) λ now _. Unfailing-pure _ _ (inr p))
    | inr other ↦ rw other (Unfailing-pure _ (out, some e) (inr p))
  ]

  api_invoke-Leaves :
      (v : criproxy.Object.Version.Version) (i : ℕ) (method : Text) (req : Request)
      (resp : Response)
      → Unfailing
          (Leaves (Answered (api_client v) i method req resp) resp)
          (api_invoke env i method req resp)
  unfolding api_invoke rpc_call Answered
  api_invoke-Leaves v i method req resp =
      Unfailing-bind Any _ _ _ (on_slot-Unfailing i _ _) λ conn _. by_conn conn
    where
      by_conn :
          (conn : Option (Option ℕ))
          → Unfailing {A = Response × Option Error}
              (Leaves (Answered (api_client v) i method req resp) resp)
              (elim conn [
                | none ↦ pure (resp, some not_connected)
                | some c ↦ rpc_call env i c method req resp >>= check_conn env i c
              ])
      by_conn none = Unfailing-pure _ (resp, some not_connected) (inl refl)
      by_conn (some c) =
          Unfailing-bind (λ r. Answered (api_client v) i method req resp r.0) _
            (rpc_call env i c method req resp) _ (record { unfailing = λ w. (w.log, c, refl) })
            λ r p. check_conn-Leaves _ i c resp r p

  downgrade_to-Leaves :
      (P Q : Response → Type 0) (resp resp' : Response)
      → ((reply downgraded out : Response)
          → P reply
          → env.downgrade_response reply ≡ some downgraded
          → wrap_response resp downgraded ≡ some out
          → Q out)
      → (r : Response × Option Error) → Leaves P resp' r
      → Unfailing (Leaves Q resp) (downgrade_to env resp r)
  unfolding downgrade_to
  downgrade_to-Leaves P Q resp resp' h (reply, some e) p =
      Unfailing-pure _ (resp, some e) (inl refl)
  downgrade_to-Leaves P Q resp resp' h (reply, none) p =
      Unfailing-bind _ _ _ _
        (Unfailing-assert (λ d. env.downgrade_response reply ≡ some d) _ λ a e. e)
        λ downgraded e.
          Unfailing-bind _ _ _ _
            (Unfailing-assert (λ o. wrap_response resp downgraded ≡ some o) _ λ a e'. e')
            λ out e'. Unfailing-pure _ (out, none) (h reply downgraded out p e e')

  invoke_next-Leaves :
      (next : Next) (i : ℕ) (method : Text) (req : Request) (resp : Response)
      → Unfailing
          (Leaves (Answered next i method req resp) resp)
          (invoke_next env next i method req resp)
  unfolding invoke_next Answered
  invoke_next-Leaves (api_client v) i method req resp = api_invoke-Leaves v i method req resp
  invoke_next-Leaves (upgrading_client next) i method req resp =
      Unfailing-bind _ _ _ _ (Unfailing-assert (λ q. env.upgrade_request req ≡ some q) _ λ a e. e)
        λ req' e.
          Unfailing-bind _ _ _ _
            (Unfailing-assert (λ u. env.upgrade_response resp ≡ some u) _ λ a e'. e')
            λ resp' e'.
              Unfailing-bind _ _ _ _ (invoke_next-Leaves next i _ (wrap_request cri112 req') resp')
                λ r left.
                  downgrade_to-Leaves _ _ resp resp'
                    (λ reply downgraded out a d k. (req', resp', reply, downgraded, e, e', a, d, k))
                    r left

  -- invoke never fails: it gives the error beside the response.
  pub invoke-Leaves :
      (i : ℕ) (method : Text) (req : Request) (resp : Response)
      → Unfailing
          (Leaves (λ out. (next : Next) × Answered next i method req resp out) resp)
          (invoke env i method req resp)
  unfolding invoke
  invoke-Leaves i method req resp =
      Unfailing-bind Any _ _ _ (on_slot-Unfailing i _ _) λ found _. by_next found
    where
      weaken :
          (next : Next) (out : Response × Option Error)
          → Leaves (Answered next i method req resp) resp out
          → Leaves (λ out. (next : Next) × Answered next i method req resp out) resp out
      weaken next (out, none) p = (next, p)
      weaken next (out, some e) (inl k) = inl k
      weaken next (out, some e) (inr p) = inr (next, p)

      by_next :
          (found : Option (Option Next))
          → Unfailing {A = Response × Option Error}
              (Leaves (λ out. (next : Next) × Answered next i method req resp out) resp)
              (elim found [
                | none ↦ pure (resp, some not_connected)
                | some next ↦ do n ← assert next; invoke_next env n i method req resp
              ])
      by_next none = Unfailing-pure _ (resp, some not_connected) (inl refl)
      by_next (some next) =
          Unfailing-bind Any _ _ _ (Unfailing-assert Any next λ a e. tt)
            λ n _. Unfailing-weaken _ _ _ (weaken n) (invoke_next-Leaves n i method req resp)
