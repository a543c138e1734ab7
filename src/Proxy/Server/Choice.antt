-- ===== src/Proxy/Server/Choice.antt =====
-- Which proxy a request of the server is for, and that no other one changes.
use criproxy.Prelude.{
  ℕ, zero, suc, ◌<◌, ◌≡◌, ◌≢◌, refl, sym, true, false, Bool-cases, some, List, [], ◌∷◌, get_elem?,
  set, inl, inr, arith, All, subst,
}
use mathlib.Core.Option.{some-injective}
use criproxy.Text.{Text}
use criproxy.Errors.{no_interceptor}
use criproxy.Object.Requests.{Request}
use criproxy.Proxy.World.{err}
use criproxy.Proxy.Dispatch.{matches}
use criproxy.Proxy.Dispatch.Methods.{matches_version}
use criproxy.Proxy.Server.{Running, run, server_intercept}

-- No proxy before the place is of the version of the one there.
abbrev pub IsFirstOfVersion : List Running → ℕ → Running → Type 0
IsFirstOfVersion ps k p =
    (j : ℕ) (q : Running)
    → j < k
    → get_elem? ps j ≡ some q
    → q.proxy.cri_version ≢ p.proxy.cri_version

module _ (full_method : Text) (req : Request) where
  other_unmatched :
      (q p : Running)
      → matches p.proxy full_method ≡ true
      → q.proxy.cri_version ≢ p.proxy.cri_version
      → matches q.proxy full_method ≡ false
  other_unmatched q p m other = elim (Bool-cases (matches q.proxy full_method)) [
    | inl e ↦ absurd (other (matches_version q.proxy p.proxy full_method e m))
    | inr e ↦ e
  ]

  -- The first proxy of its version, if it matches the method, handles the request as if it were
  -- alone; only the state of its clients changes.
  pub server_intercept-run :
      (ps : List Running) (k : ℕ) (p : Running)
      → get_elem? ps k ≡ some p
      → matches p.proxy full_method ≡ true
      → IsFirstOfVersion ps k p
      → server_intercept ps full_method req
        ≡ ((run p full_method req).0, set ps k (record p { world = (run p full_method req).1 }))
  unfolding server_intercept
  server_intercept-run [] k p here m first = cc
  server_intercept-run (q ∷ ps) zero p here m first =
      let same : q ≡ p = some-injective q p here in
      subst
        (λ x.
          server_intercept (q ∷ ps) full_method req
          ≡ ((run x full_method req).0, record x { world = (run x full_method req).1 } ∷ ps))
        same (rw (subst (λ x. matches x.proxy full_method ≡ true) (sym same) m, server_intercept))
  server_intercept-run (q ∷ ps) (suc k) p here m first = rw (
    other_unmatched q p m (first 0 q (omega arith) refl),
    server_intercept,
    server_intercept-run ps k p here m (λ j x lt e. first (suc j) x (omega arith) e),
  )

  -- Where no proxy matches the method there is an error, and nothing changes.
  pub server_intercept_unmatched :
      (ps : List Running)
      → All (λ p. matches p.proxy full_method ≡ false) ps
      → server_intercept ps full_method req ≡ (err (no_interceptor full_method), ps)
  unfolding server_intercept
  server_intercept_unmatched [] h = refl
  server_intercept_unmatched (p ∷ ps) h =
      rw (h.0, server_intercept, server_intercept_unmatched ps h.1)
