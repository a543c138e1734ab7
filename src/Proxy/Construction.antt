-- ===== src/Proxy/Construction.antt =====
-- NewRuntimeProxy of pkg/proxy/proxy.go and newAutoClient of pkg/proxy/apiclient.go.
use criproxy.Prelude.{
  ◌+◌, ◌≡◌, true, false, Bool, none, some, List, [], ◌∷◌, map, take, drop, ◌⊎◌, inl, inr, All,
  if◌then◌else◌, arith, Bool-cases, not,
}
use criproxy.Text.{Text, codes, index}
use criproxy.Errors.{Error, no_sockets, first_not_primary, other_primary}
use criproxy.Naming.{ClientBase, is_primary}
use criproxy.Connection.{new_client_connection}
use criproxy.Proxy.World.{Version, Slot}
use criproxy.Proxy.Routing.{RuntimeProxy}

-- strings.SplitN(addr, ":", 2): the id, empty where there is no colon, and the address.
unfoldable pub split_addr : Text → Text × Text
split_addr addr = elim (index addr (codes ":")) [
  | none ↦ ([], addr)
  | some p ↦ (take p addr, drop (p + 1) addr)
]

-- newAutoClient: what stays of the client, and what changes.
unfoldable pub client_of : Text → ClientBase
client_of addr = record { id = (split_addr addr).0 }

unfoldable pub slot_of : Text → Slot
slot_of addr = record { connection = new_client_connection (split_addr addr).1; next = none }

unfoldable pub any_primary : List ClientBase → Bool
any_primary [] = false
any_primary (c ∷ cs) = if is_primary c then true else any_primary cs

unfoldable pub new_runtime_proxy : Version → List Text → Error ⊎ (RuntimeProxy × List Slot)
new_runtime_proxy v [] = inl no_sockets
new_runtime_proxy v (addr ∷ addrs) =
    if not (is_primary (client_of addr))
    then inl first_not_primary
    else if any_primary (map client_of addrs)
    then inl other_primary
    else inr (
      record { cri_version = v; primary = client_of addr; others = map client_of addrs },
      map slot_of (addr ∷ addrs),
    )

abbrev pub IsNotPrimary : ClientBase → Type 0
IsNotPrimary c = is_primary c ≡ false

any_primary-All : (cs : List ClientBase) → any_primary cs ≡ false → All IsNotPrimary cs
unfolding any_primary
any_primary-All [] h = tt
any_primary-All (c ∷ cs) h = (ground arith, any_primary-All cs (ground arith))

-- The proxy of one or more addresses is made exactly if the client of the first is primary and no
-- other is: then its clients and their connections are those of the addresses in their order.
-- Otherwise there is an error.
pub new_runtime_proxy_cases :
    (v : Version) (addr : Text) (addrs : List Text)
    → ((is_primary (client_of addr) ≡ true)
        × All IsNotPrimary (map client_of addrs)
        × (new_runtime_proxy v (addr ∷ addrs)
            ≡ inr (
              record { cri_version = v; primary = client_of addr; others = map client_of addrs },
              map slot_of (addr ∷ addrs),
            )))
      ⊎ (((is_primary (client_of addr) ≡ false) ⊎ (any_primary (map client_of addrs) ≡ true))
          × ((e : Error) × (new_runtime_proxy v (addr ∷ addrs) ≡ inl e)))
unfolding new_runtime_proxy
new_runtime_proxy_cases v addr addrs = elim (Bool-cases (is_primary (client_of addr))) [
  | inr e ↦ inr (inl e, (first_not_primary, rw e))
  | inl e ↦ elim (Bool-cases (any_primary (map client_of addrs))) [
    | inl k ↦ inr (inr k, (other_primary, rw (e, k)))
    | inr k ↦ inl (e, any_primary-All (map client_of addrs) k, rw (e, k))
  ]
]
