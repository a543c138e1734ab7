-- ===== src/Proxy/Server/Made.antt =====
-- NewServer of pkg/proxy/grpc.go: the services that its interceptors register, and which of them handles
-- a request.
use criproxy.Prelude.{
  ℕ, zero, suc, ◌≡◌, ◌≢◌, refl, sym, ap, ◌∙◌, Bool, true, false, ◌||◌, Option, Option-cases, none,
  some, List, [], ◌∷◌, get_elem?, set, inl, inr, arith, if◌then◌else◌, subst, Bool-cases,
}
use mathlib.Core.Option.{some-injective}
use criproxy.Object.Requests.{Request, method_of}
use criproxy.Proxy.World.{is_version, Version, cri19, cri112}
use criproxy.Proxy.Server.{Running, run, server_intercept}
use criproxy.Proxy.Server.Choice.{IsFirstOfVersion, server_intercept-run}
use criproxy.Proxy.Server.EndToEnd.{full_method_name, full_method_name-matches}

pub record Server : Type 0 where
  pub interceptors : List Running
  -- the versions whose services are registered
  pub registered : List Version

unfoldable pub is_registered : Version → List Version → Bool
unfolding is_version
is_registered v [] = false
is_registered v (u ∷ us) = is_version v u || is_registered v us

-- RegisterService of gRPC for the services of a version; none where it ends the program.
abbrev pub Registering : Type 0
Registering = Version → List Version → Option (List Version)

-- A service that is there already is refused, as gRPC documents it.
abbrev pub RefusesTwice : Registering → Type 0
RefusesTwice grpc =
    (v : Version) (us : List Version)
    → grpc v us ≡ (if is_registered v us then none else some (v ∷ us))

module _ (grpc : Registering) where
  -- Register of an interceptor.
  unfoldable pub register : Running → List Version → Option (List Version)
  register p us = grpc p.proxy.cri_version us

  unfoldable pub register_all : List Running → List Version → Option (List Version)
  unfolding register
  register_all [] us = some us
  register_all (p ∷ ps) us = elim (register p us) [ none ↦ none | some us' ↦ register_all ps us' ]

  unfoldable pub new_server : List Running → Option Server
  unfolding register_all
  new_server ps = elim (register_all ps []) [
    | none ↦ none
    | some us ↦ some (record { interceptors = ps; registered = us })
  ]

is_version_refl : (v : Version) → is_version v v ≡ true
unfolding is_version
is_version_refl cri19 = refl
is_version_refl cri112 = refl

module _ (grpc : Registering) (refuses : RefusesTwice grpc) where
  register_all-cons :
      (q : Running) (ps : List Running) (us out : List Version)
      → register_all grpc (q ∷ ps) us ≡ some out
      → (is_registered q.proxy.cri_version us ≡ false)
        × (register_all grpc ps (q.proxy.cri_version ∷ us) ≡ some out)
  unfolding register_all
  register_all-cons q ps us out e = elim (Bool-cases (is_registered q.proxy.cri_version us)) [
    | inl k ↦ absurd (ground (arith, refuses q.proxy.cri_version us))
    | inr k ↦ (k, ground (arith, refuses q.proxy.cri_version us))
  ]

  -- A version that is registered is of no proxy that is registered later.
  later_other :
      (ps : List Running) (us out : List Version) (v : Version)
      → register_all grpc ps us ≡ some out
      → is_registered v us ≡ true
      → (j : ℕ) (p : Running) → get_elem? ps j ≡ some p
      → v ≢ p.proxy.cri_version
  unfolding is_registered
  later_other [] us out v e known j p here same = cc
  later_other (q ∷ ps) us out v e known zero p here same =
      let fresh = (register_all-cons q ps us out e).0 in
      let there : q ≡ p = some-injective q p here in
      let k =
        subst (λ (x : Version). is_registered x us ≡ true)
          (same ∙ ap (λ x. x.proxy.cri_version) (sym there)) known in
      cc
  later_other (q ∷ ps) us out v e known (suc j) p here same =
      later_other ps (q.proxy.cri_version ∷ us) out v (register_all-cons q ps us out e).1
        (ground arith) j p here same

  first_of_version :
      (ps : List Running) (us out : List Version)
      → register_all grpc ps us ≡ some out
      → (j : ℕ) (p : Running) → get_elem? ps j ≡ some p
      → IsFirstOfVersion ps j p
  unfolding is_registered
  first_of_version [] us out e j p here i x lt h same = cc
  first_of_version (q ∷ ps) us out e zero p here i x lt h same = absurd (omega (arith, lt))
  first_of_version (q ∷ ps) us out e (suc j) p here zero x lt h same =
      later_other ps (q.proxy.cri_version ∷ us) out q.proxy.cri_version
        (register_all-cons q ps us out e).1 (rw (is_version_refl q.proxy.cri_version)) j p here
        (ap (λ y. y.proxy.cri_version) (some-injective q x h) ∙ same)
  first_of_version (q ∷ ps) us out e (suc j) p here (suc i) x lt h same =
      first_of_version ps (q.proxy.cri_version ∷ us) out (register_all-cons q ps us out e).1 j p
        here i x (omega (arith, lt)) h same

  -- The interceptors of the server are those that it is made of, and their services are registered.
  new_server-eq_some :
      (ps : List Running) (s : Server)
      → new_server grpc ps ≡ some s
      → (s.interceptors ≡ ps) × (register_all grpc ps [] ≡ some s.registered)
  unfolding new_server
  new_server-eq_some ps s e = elim (Option-cases (register_all grpc ps [])) [
    | inl k ↦ absurd (ground arith)
    | inr (us, k) ↦ (ground arith, ground arith)
  ]

-- Where gRPC refuses to register a service twice, of a server that is made every interceptor handles
-- each request of its version, sent under the name of its method, as if it were alone; only its state
-- changes.
pub new_server-handles :
    (grpc : Registering)
    → RefusesTwice grpc
    → (ps : List Running) (s : Server) → new_server grpc ps ≡ some s
    → (j : ℕ) (p : Running) → get_elem? s.interceptors j ≡ some p
    → (req : Request)
    → server_intercept s.interceptors (full_method_name p.proxy.cri_version (method_of req)) req ≡ (
      (run p (full_method_name p.proxy.cri_version (method_of req)) req).0,
      set s.interceptors j (record p {
        world = (run p (full_method_name p.proxy.cri_version (method_of req)) req).1;
      }),
    )
new_server-handles grpc refuses ps s e j p here req =
    let (same, registers) = new_server-eq_some grpc refuses ps s e in
    server_intercept-run (full_method_name p.proxy.cri_version (method_of req)) req s.interceptors j
      p here (full_method_name-matches p.proxy p.proxy.cri_version (method_of req))
      (first_of_version grpc refuses s.interceptors [] s.registered
        (subst (λ qs. register_all grpc qs [] ≡ some s.registered) (sym same) registers) j p here)
