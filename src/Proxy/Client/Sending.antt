-- ===== src/Proxy/Client/Sending.antt =====
-- invoke makes its calls to its client, of its method and request.
use criproxy.Prelude.{ℕ, ◌≡◌, refl, Option, none, some, [], ◌∷◌, inl, inr, Bool-cases}
use criproxy.Text.{Text, replace_first}
use criproxy.Errors.{Error, is_unavailable, not_connected}
use criproxy.Object.Requests.{Request, wrap_request}
use criproxy.Object.Responses.{Response}
use criproxy.Proxy.World.{cri112, Next, api_client, upgrading_client, Call, ◌>>=◌, pure, assert}
use criproxy.Proxy.Client.{
  Env, legacy_package, new_package, rpc_call, check_conn, api_invoke, downgrade_to, invoke_next,
  invoke,
}
use criproxy.Proxy.Client.Calls.{SentAs, IsSent}
use criproxy.Proxy.Logic.Sections.{Any, on_slot-Reads}
use criproxy.Proxy.Logic.Makes.{
  Makes, Makes-bind, Makes-pure, Makes-assert, Makes-of_reading, Makes-weaken,
}

abbrev IsCalled : ℕ → Text → Request → Call → Type 0
IsCalled i method req call = (call.client ≡ i) × (call.method ≡ method) × (call.req ≡ req)

module _ (env : Env) where
  check_conn-Makes :
      (P : Call → Type 0) (i : ℕ) (conn : Option ℕ) (r : Response × Option Error)
      → Makes P Any (check_conn env i conn r)
  unfolding check_conn
  check_conn-Makes P i conn (resp, none) = Makes-pure P Any (resp, none) tt
  check_conn-Makes P i conn (resp, some e) = elim (Bool-cases (is_unavailable e)) [
    | inl down ↦ rw (down) (
        Makes-bind P Any Any _ _ (Makes-of_reading P Any _ (on_slot-Reads i _ _))
          λ now _. Makes-pure P Any _ tt)
    | inr up ↦ rw (up) (Makes-pure P Any (resp, some e) tt)
  ]

  api_invoke-Makes :
      (i : ℕ) (method : Text) (req : Request) (resp : Response)
      → Makes (IsCalled i method req) Any (api_invoke env i method req resp)
  unfolding api_invoke rpc_call
  api_invoke-Makes i method req resp =
      Makes-bind _ Any Any _ _ (Makes-of_reading _ Any _ (on_slot-Reads i _ _))
        λ conn _. by_conn conn
    where
      by_conn :
          (conn : Option (Option ℕ))
          → Makes {A = Response × Option Error} (IsCalled i method req) Any (elim conn [
            | none ↦ pure (resp, some not_connected)
            | some c ↦ rpc_call env i c method req resp >>= check_conn env i c
          ])
      by_conn none = Makes-pure _ Any _ tt
      by_conn (some c) =
          Makes-bind _ Any Any _ _
            (record { makes = λ w. (_ ∷ [], refl, ((refl, refl, refl), tt), tt) })
            λ r _. check_conn-Makes _ i c r

  downgrade_to-Makes :
      (P : Call → Type 0) (resp : Response) (r : Response × Option Error)
      → Makes P Any (downgrade_to env resp r)
  unfolding downgrade_to
  downgrade_to-Makes P resp (r, some e) = Makes-pure P Any _ tt
  downgrade_to-Makes P resp (r, none) =
      Makes-bind P Any Any _ _ (Makes-assert P Any _ λ d e. tt) λ d _.
        Makes-bind P Any Any _ _ (Makes-assert P Any _ λ x e. tt) λ x _. Makes-pure P Any _ tt

  invoke_next-Makes :
      (next : Next) (i : ℕ) (method : Text) (req : Request) (resp : Response)
      → Makes (SentAs env next i method req) Any (invoke_next env next i method req resp)
  unfolding invoke_next
  invoke_next-Makes (api_client v) i method req resp = api_invoke-Makes i method req resp
  invoke_next-Makes (upgrading_client next) i method req resp =
      Makes-bind _ (λ q. env.upgrade_request req ≡ some q) Any _ _ (Makes-assert _ _ _ λ q e. e)
        λ q e. Makes-bind _ Any Any _ _ (Makes-assert _ Any _ λ u f. tt) λ u _.
          Makes-bind _ Any Any _ _
            (Makes-weaken Any _ _ _
              (invoke_next-Makes next i (replace_first method legacy_package new_package)
                (wrap_request cri112 q) u)
              λ call h. (q, e, h))
            λ r _. downgrade_to-Makes _ resp r

  -- Every call is made by its client, whichever that is then, for the method and the request.
  pub invoke-Makes :
      (i : ℕ) (method : Text) (req : Request) (resp : Response)
      → Makes (IsSent env i method req) Any (invoke env i method req resp)
  unfolding invoke
  invoke-Makes i method req resp =
      Makes-bind _ Any Any _ _ (Makes-of_reading _ Any _ (on_slot-Reads i _ _))
        λ found _. by_state found
    where
      by_state :
          (found : Option (Option Next))
          → Makes {A = Response × Option Error} (IsSent env i method req) Any (elim found [
            | none ↦ pure (resp, some not_connected)
            | some next ↦ do n ← assert next; invoke_next env n i method req resp
          ])
      by_state none = Makes-pure _ Any _ tt
      by_state (some next) =
          Makes-bind _ Any Any _ _ (Makes-assert _ Any _ λ n e. tt)
            λ n _. Makes-weaken Any _ _ _ (invoke_next-Makes n i method req resp) λ call h. (n, h)
