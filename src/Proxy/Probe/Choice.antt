-- ===== src/Proxy/Probe/Choice.antt =====
-- The client that the probe chooses speaks the newest version that the runtime answered.
use criproxy.Prelude.{ℕ, ◌≡◌, ◌≢◌, refl, ◌∙◌, Option, none, some, ◌++◌, ◌⊎◌, inl, inr, Option-cases}
use criproxy.Text.{Text, replace_first, index, has_prefix}
use criproxy.Errors.{Error}
use criproxy.Object.Requests.{Request}
use criproxy.Proxy.World.{Version, cri19, cri112, Next, api_client, upgrading_client, Call}
use criproxy.Proxy.Client.{Env, legacy_package, new_package}
use criproxy.Proxy.Client.Calls.{SentAs}
use criproxy.Proxy.Dispatch.{proto_package, method_prefix}
use criproxy.Proxy.Probe.{version_method, to_try, check_from, check_connection}

-- A client of a proxy of version `v` that makes its calls in version `u`, under the same names.
abbrev pub Speaks : Env → Version → Next → Version → Type 0
Speaks env v next u =
    (i : ℕ) (name : Text) (req : Request) (call : Call)
    → SentAs env next i (method_prefix v ++ name) req call
    → call.method ≡ method_prefix u ++ name

upgraded_method :
    (name : Text)
    → replace_first (method_prefix cri19 ++ name) legacy_package new_package
      ≡ method_prefix cri112 ++ name
unfolding replace_first method_prefix proto_package index has_prefix
upgraded_method name = refl

module _ (env : Env) where
  own_version-Speaks : (u : Version) → Speaks env u (api_client u) u
  own_version-Speaks u i name req call h = h.1

  upgraded-Speaks : Speaks env cri19 (upgrading_client (api_client cri112)) cri112
  upgraded-Speaks i name req call (q, e, h) = h.1 ∙ upgraded_method name

  -- The probe chooses a client that speaks a version that the runtime answered, version 1.12 if it
  -- answered that one; or the runtime answered neither version 1.12 nor the proxy's own, and there is
  -- an error and no client.
  pub check_connection_cases :
      (v : Version) (answers : Text → Option Error)
      → ((next : Next) × (u : Version) × (check_connection answers v ≡ (some next, none))
          × (answers (version_method u) ≡ none)
          × ((answers (version_method cri112) ≡ none) → u ≡ cri112)
          × Speaks env v next u)
        ⊎ ((e : Error) × (check_connection answers v ≡ (none, some e))
            × (answers (version_method cri112) ≢ none)
            × (answers (version_method v) ≢ none))
  unfolding check_connection check_from to_try
  check_connection_cases cri112 answers = elim (Option-cases (answers (version_method cri112))) [
    | inl e ↦ inl (api_client cri112, cri112, rw e, e, λ _. refl, own_version-Speaks cri112)
    | inr (x, e) ↦ inr (x, rw e, λ n. cc, λ n. cc)
  ]
  check_connection_cases cri19 answers = elim (Option-cases (answers (version_method cri112))) [
    | inl e ↦
        inl (upgrading_client (api_client cri112), cri112, rw e, e, λ _. refl, upgraded-Speaks)
    | inr (x, e) ↦ elim (Option-cases (answers (version_method cri19))) [
      | inl f ↦ inl (api_client cri19, cri19, rw (e, f), f, λ n. cc, own_version-Speaks cri19)
      | inr (y, f) ↦ inr (y, rw (e, f), λ n. cc, λ n. cc)
    ]
  ]
