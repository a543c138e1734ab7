-- ===== src/Proxy/Client/Types.antt =====
-- A call leaves a response of the type that it was given, through every kind of client.
use criproxy.Prelude.{ℕ, refl, Option, none, some, List, inl, inr, Bool-cases}
use criproxy.Text.{Text}
use criproxy.Errors.{Error, is_unavailable, not_connected}
use criproxy.Object.Requests.{Request}
use criproxy.Object.Responses.{Response}
use criproxy.Object.Responses.Types.{SameType, wrap_response-SameType}
use criproxy.Proxy.World.{Next, api_client, upgrading_client, Call, ◌>>=◌, pure, fail, assert}
use criproxy.Proxy.Client.{
  Env, rpc_call, check_conn, api_invoke, after_call, api_invoke_with_error_handling, downgrade_to,
  invoke_next, invoke_next_with_error_handling, invoke, invoke_with_error_handling,
}
use criproxy.Proxy.Logic.Ensures.{
  Ensures, Ensures-bind, Ensures-after, Ensures-pure, Ensures-fail, Ensures-assert,
}

-- A call decodes its answer into the message that it is given.
abbrev pub KeepsType : Env → Type 0
KeepsType env =
    (log : List Call) (call : Call) (resp : Response) → SameType (env.serve log call resp).0 resp

module _ (env : Env) (keeps : KeepsType env) where
  rpc_call-Ensures :
      (i : ℕ) (conn : Option ℕ) (method : Text) (req : Request) (resp : Response)
      → Ensures (λ r. SameType r.0 resp) (rpc_call env i conn method req resp)
  unfolding rpc_call
  rpc_call-Ensures i conn method req resp = record { ensures = λ w. keeps _ _ resp }

  check_conn-Ensures :
      (i : ℕ) (conn : Option ℕ) (resp : Response) (r : Response × Option Error)
      → SameType r.0 resp
      → Ensures (λ out. SameType out.0 resp) (check_conn env i conn r)
  unfolding check_conn
  check_conn-Ensures i conn resp (a, none) h = Ensures-pure _ _ h
  check_conn-Ensures i conn resp (a, some e) h = elim (Bool-cases (is_unavailable e)) [
    | inl down ↦ rw down (Ensures-after _ _ _ λ now. Ensures-pure _ _ h)
    | inr other ↦ rw other (Ensures-pure _ (a, some e) h)
  ]

  api_invoke-Ensures :
      (i : ℕ) (method : Text) (req : Request) (resp : Response)
      → Ensures (λ out. SameType out.0 resp) (api_invoke env i method req resp)
  unfolding api_invoke
  api_invoke-Ensures i method req resp = Ensures-after _ _ _ by_conn
    where
      by_conn :
          (conn : Option (Option ℕ))
          → Ensures {A = Response × Option Error}
              (λ out. SameType out.0 resp)
              (elim conn [
                | none ↦ pure (resp, some not_connected)
                | some c ↦ rpc_call env i c method req resp >>= check_conn env i c
              ])
      by_conn none = Ensures-pure _ _ refl
      by_conn (some c) =
          Ensures-bind _ _ _ _ (rpc_call-Ensures i c method req resp)
            λ r h. check_conn-Ensures i c resp r h

  after_call-Ensures :
      (i : ℕ) (resp : Response) (r : Response × Option Error)
      → SameType r.0 resp
      → Ensures (λ out. SameType out resp) (after_call env i r)
  unfolding after_call
  after_call-Ensures i resp (a, none) h = Ensures-pure _ a h
  after_call-Ensures i resp (a, some e) h = Ensures-after _ _ _ left
    where
      left :
          (e : Option Error)
          → Ensures {A = Response}
              (λ out. SameType out resp)
              (elim e [ none ↦ pure a | some e' ↦ fail e' ])
      left none = Ensures-pure _ a h
      left (some e') = Ensures-fail _ e'

  downgrade_to-Ensures :
      (resp : Response) (r : Response × Option Error)
      → Ensures (λ out. SameType out.0 resp) (downgrade_to env resp r)
  unfolding downgrade_to
  downgrade_to-Ensures resp (r, some e) = Ensures-pure _ _ refl
  downgrade_to-Ensures resp (r, none) = Ensures-after _ _ _ λ downgraded.
      Ensures-bind _ _ _ _
        (Ensures-assert _ _ λ out e. wrap_response-SameType resp downgraded out e)
        λ wrapped h. Ensures-pure _ (wrapped, none) h

  invoke_next-Ensures :
      (next : Next) (i : ℕ) (method : Text) (req : Request) (resp : Response)
      → Ensures (λ out. SameType out.0 resp) (invoke_next env next i method req resp)
  unfolding invoke_next
  invoke_next-Ensures (api_client v) i method req resp = api_invoke-Ensures i method req resp
  invoke_next-Ensures (upgrading_client next) i method req resp =
      Ensures-after _ _ _
        λ req'. Ensures-after _ _ _ λ resp'. Ensures-after _ _ _ λ r. downgrade_to-Ensures resp r

  pub invoke-Ensures :
      (i : ℕ) (method : Text) (req : Request) (resp : Response)
      → Ensures (λ out. SameType out.0 resp) (invoke env i method req resp)
  unfolding invoke
  invoke-Ensures i method req resp = Ensures-after _ _ _ by_next
    where
      by_next :
          (found : Option (Option Next))
          → Ensures {A = Response × Option Error}
              (λ out. SameType out.0 resp)
              (elim found [
                | none ↦ pure (resp, some not_connected)
                | some next ↦ do n ← assert next; invoke_next env n i method req resp
              ])
      by_next none = Ensures-pure _ _ refl
      by_next (some next) = Ensures-after _ _ _ λ n. invoke_next-Ensures n i method req resp

  next_with_error_handling-Ensures :
      (next : Next) (i : ℕ) (method : Text) (req : Request) (resp : Response)
      → Ensures
          (λ out. SameType out resp)
          (invoke_next_with_error_handling env next i method req resp)
  unfolding invoke_next_with_error_handling api_invoke_with_error_handling
  next_with_error_handling-Ensures (api_client v) i method req resp = Ensures-after _ _ _ λ conn.
      Ensures-bind _ _ _ _ (rpc_call-Ensures i conn method req resp)
        λ r h. after_call-Ensures i resp r h
  next_with_error_handling-Ensures (upgrading_client next) i method req resp =
      Ensures-after _ _ _ λ req'. Ensures-after _ _ _ λ resp'. Ensures-after _ _ _ λ r.
        Ensures-after _ _ _
          λ downgraded. Ensures-assert _ _ λ out e. wrap_response-SameType resp downgraded out e

  pub invoke_with_error_handling-Ensures :
      (i : ℕ) (method : Text) (req : Request) (resp : Response)
      → Ensures (λ out. SameType out resp) (invoke_with_error_handling env i method req resp)
  unfolding invoke_with_error_handling
  invoke_with_error_handling-Ensures i method req resp = Ensures-after _ _ _ by_next
    where
      by_next :
          (found : Option (Option Next))
          → Ensures {A = Response}
              (λ out. SameType out resp)
              (elim found [
                | none ↦ fail not_connected
                | some next ↦ do
                  n ← assert next
                  invoke_next_with_error_handling env n i method req resp
              ])
      by_next none = Ensures-fail _ not_connected
      by_next (some next) =
          Ensures-after _ _ _ λ n. next_with_error_handling-Ensures n i method req resp
