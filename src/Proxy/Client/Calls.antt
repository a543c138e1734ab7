-- ===== src/Proxy/Client/Calls.antt =====
-- The calls that invokeWithErrorHandling makes, and where its result comes from.
use criproxy.Prelude.{ℕ, ◌≡◌, refl, ◌∙◌, inr, Option, none, some, List}
use criproxy.Text.{Text, replace_first}
use criproxy.Errors.{Error, not_connected}
use criproxy.Object.Requests.{Request, wrap_request}
use criproxy.Object.Responses.{Response}
use criproxy.Object.Wrap.{wrap_response}
use criproxy.Proxy.World.{
  cri112, Version, Next, api_client, upgrading_client, Call, ◌>>=◌, fail, assert,
}
use criproxy.Proxy.Client.{
  Env, rpc_call, after_call, api_invoke_with_error_handling, legacy_package, new_package,
  invoke_next_with_error_handling, invoke_with_error_handling,
}
use criproxy.Proxy.Logic.{
  Reads, Sends, Reads-bind, Reads-pure, Reads-fail, Reads-assert, Sends-after, Sends-then,
  Sends-of_failing, Sends-weaken, Reads-weaken,
}
use criproxy.Proxy.Logic.Sections.{Any, on_slot-Reads, handle_client_error_leaves}

module _ (env : Env) where
  -- The call that a client behind an autoClient makes for a method and a request.
  abbrev pub SentAs : Next → ℕ → Text → Request → Call → Type 0
  SentAs (api_client v) i method req call =
      (call.client ≡ i) × (call.method ≡ method) × (call.req ≡ req)
  SentAs (upgrading_client next) i method req call =
      (upgraded : Request) × (env.upgrade_request req ≡ some upgraded)
      × SentAs next i (replace_first method legacy_package new_package)
          (wrap_request cri112 upgraded) call

  -- The response that it makes of what the call leaves, where there is no error.
  abbrev pub AnsweredBy : Next → Response → List Call → Call → Response → Type 0
  AnsweredBy (api_client v) resp log call answer = env.serve log call resp ≡ (answer, none)
  AnsweredBy (upgrading_client next) resp log call answer =
      (upgraded reply downgraded : Response) × (env.upgrade_response resp ≡ some upgraded)
      × AnsweredBy next upgraded log call reply
      × (env.downgrade_response reply ≡ some downgraded)
      × (wrap_response resp downgraded ≡ some answer)

  after_call-Reads :
      (i : ℕ) (r : Response × Option Error) → Reads (λ a. r ≡ (a, none)) (after_call env i r)
  unfolding after_call
  after_call-Reads i (resp, none) = Reads-pure _ resp refl
  after_call-Reads i (resp, some e) =
      Reads-bind (λ left. (e' : Error) × (left ≡ some e')) _ _ _ (handle_client_error_leaves i e)
        λ left h. rw (h.1) (Reads-fail _ h.0)

  rpc_call-Sends :
      (v : Version) (i : ℕ) (conn : Option ℕ) (method : Text) (req : Request) (resp : Response)
      → Sends
          (SentAs (api_client v) i method req)
          (λ log call r. env.serve log call resp ≡ r)
          (rpc_call env i conn method req resp)
  unfolding rpc_call
  rpc_call-Sends v i conn method req resp = record {
    sends = λ w. inr (_, refl, (refl, refl, refl), refl);
  }

  api-Sends :
      (v : Version) (i : ℕ) (method : Text) (req : Request) (resp : Response)
      → Sends
          (SentAs (api_client v) i method req)
          (AnsweredBy (api_client v) resp)
          (api_invoke_with_error_handling env i method req resp)
  unfolding api_invoke_with_error_handling
  api-Sends v i method req resp = Sends-after Any _ _ _ _ (on_slot-Reads i _ _) λ conn _.
      Sends-then _ _ _ _ _ (rpc_call-Sends v i conn method req resp)
        λ log call r e. Reads-weaken _ _ _ (after_call-Reads i r) λ a h. e ∙ h

  next-Sends :
      (next : Next) (i : ℕ) (method : Text) (req : Request) (resp : Response)
      → Sends
          (SentAs next i method req)
          (AnsweredBy next resp)
          (invoke_next_with_error_handling env next i method req resp)
  unfolding invoke_next_with_error_handling
  next-Sends (api_client v) i method req resp = api-Sends v i method req resp
  next-Sends (upgrading_client next) i method req resp =
      Sends-after (λ q. env.upgrade_request req ≡ some q) _ _ _ _ (Reads-assert _ _ λ q e. e)
        λ q hq.
          Sends-after (λ u. env.upgrade_response resp ≡ some u) _ _ _ _ (Reads-assert _ _ λ u e. e)
            λ u hu.
              Sends-then _ _ _ _ _
                (Sends-weaken _ _ _ _ _
                  (next-Sends next i (replace_first method legacy_package new_package)
                    (wrap_request cri112 q) u)
                  (λ call h. (q, hq, h)) (λ log call a h. h))
                λ log call reply h.
                  Reads-bind (λ d. env.downgrade_response reply ≡ some d) _ _ _
                    (Reads-assert _ _ λ d e. e)
                    λ d hd. Reads-assert _ _ λ a ha. (u, reply, d, hu, h, hd, ha)

  -- The call of a client of any kind, and what it makes of the answer.
  abbrev pub IsSent : ℕ → Text → Request → Call → Type 0
  IsSent i method req call = (next : Next) × SentAs next i method req call

  abbrev pub IsAnswer : Response → List Call → Call → Response → Type 0
  IsAnswer resp log call answer = (next : Next) × AnsweredBy next resp log call answer

  -- invokeWithErrorHandling makes at most one call, to its client, and one if it returns a response,
  -- which is then what the client makes of an answer with no error.
  pub invoke_with_error_handling-Sends :
      (i : ℕ) (method : Text) (req : Request) (resp : Response)
      → Sends
          (IsSent i method req)
          (IsAnswer resp)
          (invoke_with_error_handling env i method req resp)
  unfolding invoke_with_error_handling
  invoke_with_error_handling-Sends i method req resp =
      Sends-after Any _ _ _ _ (on_slot-Reads i _ _) λ found _. by_state found
    where
      by_state :
          (found : Option (Option Next))
          → Sends (IsSent i method req) (IsAnswer resp) (elim found [
            | none ↦ fail not_connected
            | some next ↦ do
              n ← assert next
              invoke_next_with_error_handling env n i method req resp
          ])
      by_state none = Sends-of_failing _ _ _ (Reads-fail _ not_connected)
      by_state (some next) = Sends-after Any _ _ _ _ (Reads-assert _ next λ n e. tt) λ n _.
          Sends-weaken _ _ _ _ _ (next-Sends n i method req resp) (λ call h. (n, h))
            (λ log call a h. (n, h))

  SentAs-client :
      (next : Next) (i : ℕ) (method : Text) (req : Request) (call : Call)
      → SentAs next i method req call
      → call.client ≡ i
  SentAs-client (api_client v) i method req call h = h.0
  SentAs-client (upgrading_client next) i method req call (upgraded, e, h) =
      SentAs-client next i _ _ call h

  -- A call of a client has its place.
  pub IsSent-client :
      (i : ℕ) (method : Text) (req : Request) (call : Call)
      → IsSent i method req call
      → call.client ≡ i
  IsSent-client i method req call (next, h) = SentAs-client next i method req call h
