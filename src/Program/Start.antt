-- ===== src/Program/Start.antt =====
-- The server that runCriProxy starts.
use criproxy.Prelude.{
  ℕ, zero, suc, ◌≡◌, refl, sym, ap, ◌∙◌, true, false, some, List, [], ◌∷◌, map, get_elem?, set, ◌⊎◌,
  inl, inr, arith, subst, All,
}
use criproxy.Text.{Text}
use criproxy.Naming.{ClientBase, is_primary}
use criproxy.Object.Requests.{Request, method_of}
use criproxy.Proxy.World.{is_version, Version, cri19, cri112, Event, Slot}
use criproxy.Proxy.Routing.{RuntimeProxy, clients}
use criproxy.Proxy.Construction.{client_of, slot_of, any_primary, IsNotPrimary, new_runtime_proxy}
use criproxy.Proxy.Dispatch.{matches}
use criproxy.Proxy.Server.{Running, run, server_intercept}
use criproxy.Proxy.Server.Made.{Server, Registering, RefusesTwice, is_registered, new_server}
use criproxy.Proxy.Server.Choice.{IsFirstOfVersion, server_intercept-run}
use criproxy.Proxy.Server.EndToEnd.{full_method_name, full_method_name-matches}
use criproxy.Program.{
  Url, Platform, Flags, split, real_stream_url, interceptor_of, new_interceptors, cri_versions,
  run_cri_proxy,
}

⊎-cases : {A B : Type 0} (s : A ⊎ B) → ((a : A) × (s ≡ inl a)) ⊎ ((b : B) × (s ≡ inr b))
⊎-cases (inl a) = inl (a, refl)
⊎-cases (inr b) = inr (b, refl)

-- A proxy that is made has the version, and the clients of the addresses.
abbrev pub IsProxyOf : Version → List Text → RuntimeProxy → List Slot → Type 0
IsProxyOf v addrs r slots =
    (r.cri_version ≡ v) × (clients r ≡ map client_of addrs) × (slots ≡ map slot_of addrs)

new_runtime_proxy-IsProxyOf :
    (v : Version) (addrs : List Text) (r : RuntimeProxy) (slots : List Slot)
    → new_runtime_proxy v addrs ≡ inr (r, slots)
    → IsProxyOf v addrs r slots
unfolding new_runtime_proxy
new_runtime_proxy-IsProxyOf v [] r slots e = cc
new_runtime_proxy-IsProxyOf v (addr ∷ addrs) r slots e = ground arith

-- Some proxy of the server has the clients of the addresses, and handles each request of its version.
abbrev pub ServesVersion : List Running → List Text → Version → Type 0
ServesVersion ps addrs v =
    (j : ℕ) × (p : Running) × (get_elem? ps j ≡ some p)
    × IsProxyOf v addrs p.proxy p.world.slots
    × ((req : Request)
        → server_intercept ps (full_method_name v (method_of req)) req ≡ (
          (run p (full_method_name v (method_of req)) req).0,
          set ps j (record p { world = (run p (full_method_name v (method_of req)) req).1 }),
        ))

serves_version :
    (ps : List Running) (addrs : List Text) (v : Version) (j : ℕ) (p : Running)
    → get_elem? ps j ≡ some p
    → IsFirstOfVersion ps j p
    → IsProxyOf v addrs p.proxy p.world.slots
    → ServesVersion ps addrs v
serves_version ps addrs v j p here first is = (
  j,
  p,
  here,
  is,
  λ req.
      server_intercept-run (full_method_name v (method_of req)) req ps j p here
        (subst (λ (u : Version). matches p.proxy (full_method_name u (method_of req)) ≡ true) is.0
          (full_method_name-matches p.proxy p.proxy.cri_version (method_of req)))
        first,
)

-- Two proxies of one each of the versions.
both_served :
    (p q : Running) (addrs : List Text)
    → IsProxyOf cri19 addrs p.proxy p.world.slots
    → IsProxyOf cri112 addrs q.proxy q.world.slots
    → (v : Version) → ServesVersion (p ∷ q ∷ []) addrs v
both_served p q addrs is is' cri19 =
    serves_version (p ∷ q ∷ []) addrs cri19 0 p refl (λ j x lt h. absurd (omega (arith, lt))) is
both_served p q addrs is is' cri112 = serves_version (p ∷ q ∷ []) addrs cri112 1 q refl first is'
  where
    first : IsFirstOfVersion (p ∷ q ∷ []) 1 q
    first zero x lt h same = cc
    first (suc j) x lt h same = absurd (omega (arith, lt))

module _ (platform : Platform) (happens : Version → List (List Event)) (u : Url)
    (addrs : List Text) where
  no_more :
      (rest : List Running) → new_interceptors platform happens u addrs [] ≡ inr rest → rest ≡ []
  unfolding new_interceptors
  no_more rest e = ground arith

  new_interceptors-cons :
      (v : Version) (vs : List Version) (ps : List Running)
      → new_interceptors platform happens u addrs (v ∷ vs) ≡ inr ps
      → (r : RuntimeProxy) × (slots : List Slot) × (rest : List Running) × (new_runtime_proxy v
            addrs
          ≡ inr (r, slots))
        × (new_interceptors platform happens u addrs vs ≡ inr rest)
        × (ps ≡ interceptor_of platform happens u r slots ∷ rest)
  unfolding new_interceptors
  new_interceptors-cons v vs ps e = elim (⊎-cases (new_runtime_proxy v addrs)) [
    | inl (x, k) ↦ absurd (ground arith)
    | inr ((r, slots), k) ↦ elim (⊎-cases (new_interceptors platform happens u addrs vs)) [
      | inl (x, l) ↦ absurd (ground arith)
      | inr (rest, l) ↦ (r, slots, rest, k, l, ground arith)
    ]
  ]

  interceptors-ServesVersion :
      (ps : List Running)
      → new_interceptors platform happens u addrs cri_versions ≡ inr ps
      → (v : Version) → ServesVersion ps addrs v
  interceptors-ServesVersion ps e v =
      let (r, slots, rest, made, more, whole) = new_interceptors-cons cri19 (cri112 ∷ []) ps e in
      let (r', slots', rest', made', none_left, tail) = new_interceptors-cons cri112 [] rest more in
      subst (λ qs. ServesVersion qs addrs v)
        (sym (
          whole
          ∙ (ap (λ l. interceptor_of platform happens u r slots ∷ l) tail
              ∙ ap
                  (λ l.
                    interceptor_of platform happens u r slots
                    ∷ interceptor_of platform happens u r' slots'
                    ∷ l)
                  (no_more rest' none_left))))
        (both_served (interceptor_of platform happens u r slots)
          (interceptor_of platform happens u r' slots') addrs
          (new_runtime_proxy-IsProxyOf cri19 addrs r slots made)
          (new_runtime_proxy-IsProxyOf cri112 addrs r' slots' made') v)

run_cri_proxy-ServesVersion :
    (platform : Platform) (happens : Version → List (List Event)) (flags : Flags)
    (ps : List Running)
    → run_cri_proxy platform happens flags ≡ inr ps
    → (v : Version) → ServesVersion ps (split flags.connect b',') v
unfolding run_cri_proxy
run_cri_proxy-ServesVersion platform happens flags ps e v =
    elim (⊎-cases (real_stream_url platform flags)) [
      | inl (x, k) ↦ absurd (ground arith)
      | inr (u, k) ↦
          interceptors-ServesVersion platform happens u (split flags.connect b',') ps (ground arith)
            v
    ]

any_primary-eq_false : (cs : List ClientBase) → All IsNotPrimary cs → any_primary cs ≡ false
unfolding any_primary
any_primary-eq_false [] h = refl
any_primary-eq_false (c ∷ cs) h = rw (h.0, any_primary-eq_false cs h.1)

made :
    (v : Version) (addr : Text) (addrs : List Text)
    → is_primary (client_of addr) ≡ true
    → All IsNotPrimary (map client_of addrs)
    → (r : RuntimeProxy) × (slots : List Slot) × (new_runtime_proxy v (addr ∷ addrs)
        ≡ inr (r, slots))
unfolding new_runtime_proxy
made v addr addrs first others = (
  record { cri_version = v; primary = client_of addr; others = map client_of addrs },
  map slot_of (addr ∷ addrs),
  rw (first, any_primary-eq_false (map client_of addrs) others),
)

run_cri_proxy_made :
    (platform : Platform) (happens : Version → List (List Event)) (flags : Flags) (u : Url)
    (addrs : List Text)
    → real_stream_url platform flags ≡ inr u
    → split flags.connect b',' ≡ addrs
    → (r r' : RuntimeProxy) (slots slots' : List Slot)
    → new_runtime_proxy cri19 addrs ≡ inr (r, slots)
    → new_runtime_proxy cri112 addrs ≡ inr (r', slots')
    → run_cri_proxy platform happens flags
      ≡ inr (
          interceptor_of platform happens u r slots
          ∷ interceptor_of platform happens u r' slots'
          ∷ [])
unfolding run_cri_proxy
run_cri_proxy_made platform happens flags u addrs url parts r r' slots slots' e e' = ground arith

new_server-both :
    (grpc : Registering)
    → RefusesTwice grpc
    → (p q : Running) → p.proxy.cri_version ≡ cri19
    → q.proxy.cri_version ≡ cri112
    → (server : Server) × (new_server grpc (p ∷ q ∷ []) ≡ some server)
unfolding new_server is_registered is_version
new_server-both grpc refuses p q e k = (
  record { interceptors = p ∷ q ∷ []; registered = cri112 ∷ cri19 ∷ [] },
  ground (arith, refuses cri19 [], refuses cri112 (cri19 ∷ [])),
)

-- Where gRPC refuses to register a service twice, if the streaming URL is found, the first address in
-- -connect is of the primary client and no other is, then runCriProxy starts a server, whose services
-- are registered once, and which has for each version a proxy whose clients and their connections are
-- those of the addresses in their order; it handles each request of its version, under the name of its
-- method, as if it were alone, and only its state changes.
pub run_cri_proxy_starts :
    (grpc : Registering)
    → RefusesTwice grpc
    → (platform : Platform) (happens : Version → List (List Event)) (flags : Flags) (u : Url)
      (addr : Text) (addrs : List Text)
    → real_stream_url platform flags ≡ inr u
    → split flags.connect b',' ≡ addr ∷ addrs
    → is_primary (client_of addr) ≡ true
    → All IsNotPrimary (map client_of addrs)
    → (ps : List Running) × (run_cri_proxy platform happens flags ≡ inr ps)
      × ((server : Server) × (new_server grpc ps ≡ some server))
      × ((v : Version) → ServesVersion ps (addr ∷ addrs) v)
run_cri_proxy_starts grpc refuses platform happens flags u addr addrs url parts first others =
    let (r, slots, e) = made cri19 addr addrs first others in
    let (r', slots', e') = made cri112 addr addrs first others in
    let ps : List Running =
      interceptor_of platform happens u r slots
      ∷ interceptor_of platform happens u r' slots'
      ∷ [] in
    let starts : run_cri_proxy platform happens flags ≡ inr ps =
      run_cri_proxy_made platform happens flags u (addr ∷ addrs) url parts r r' slots slots' e e' in
    (
      ps,
      starts,
      new_server-both grpc refuses (interceptor_of platform happens u r slots)
          (interceptor_of platform happens u r' slots')
          (new_runtime_proxy-IsProxyOf cri19 (addr ∷ addrs) r slots e).0
          (new_runtime_proxy-IsProxyOf cri112 (addr ∷ addrs) r' slots' e').0,
      λ v.
          subst (λ l. ServesVersion ps l v) parts
            (run_cri_proxy-ServesVersion platform happens flags ps starts v),
    )
