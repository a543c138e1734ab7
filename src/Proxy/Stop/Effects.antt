-- ===== src/Proxy/Stop/Effects.antt =====
-- Where nothing else happens, Stop closes the connections of all clients.
use criproxy.Prelude.{
  false, inl, inr, subst, ◌≡◌, ◌≢◌, refl, sym, ap, ◌∙◌, List, [], ◌∷◌, ◌++◌, map, length, All,
  arith,
}
use criproxy.Text.{Text}
use criproxy.Naming.{ClientBase}
use criproxy.Connection.{ClientState, unset, offline, connected, connecting, stop}
use criproxy.Connection.Invariant.{Reach}
use criproxy.Connection.Delivery.{stop_effect}
use criproxy.Proxy.Client.{is_up}
use criproxy.Proxy.World.{Slot, Call, ok, on_connection}
use criproxy.Proxy.Routing.{clients}
use criproxy.Proxy.Server.{Running}
use criproxy.Proxy.Quiet.{quiet, on_slot-quiet, >>=-quiet, append_snoc, length_snoc}
use criproxy.Proxy.Stop.{stop_client, stop_from, stop_proxy, stop_interceptors}

stop_from-quiet :
    (before : List Slot) (cs : List ClientBase) (slots : List Slot) (log : List Call)
    → length slots ≡ length cs
    → stop_from (length before) cs (quiet (before ++ slots) log)
      ≡ (ok tt, quiet (before ++ map (on_connection stop) slots) log)
unfolding stop_from stop_client
stop_from-quiet before [] [] log e = refl
stop_from-quiet before [] (s ∷ slots) log e = absurd (omega (arith, e))
stop_from-quiet before (c ∷ cs) [] log e = absurd (omega (arith, e))
stop_from-quiet before (c ∷ cs) (s ∷ slots) log e =
    >>=-quiet _ _ _ _ tt (on_slot-quiet before s slots log (λ s. tt) (on_connection stop))
    ∙ rw (
      append_snoc before (on_connection stop s) slots,
      append_snoc before (on_connection stop s) (map (on_connection stop) slots),
      sym (length_snoc before (on_connection stop s)),
      stop_from-quiet (before ++ on_connection stop s ∷ []) cs slots log (omega (arith, e)),
    )

abbrev pub IsDown : Slot → Type 0
IsDown s = is_up s.connection.state ≡ false

-- The connection of the client has a history.
abbrev pub IsReached : Slot → Type 0
IsReached s = (addr : Text) × Reach addr s.connection

not_connected-is_up : (state : ClientState) → state ≢ connected → is_up state ≡ false
not_connected-is_up connected down = absurd (down refl)
not_connected-is_up unset down = refl
not_connected-is_up offline down = refl
not_connected-is_up connecting down = refl

stop-IsDown : (s : Slot) → IsReached s → IsDown (on_connection stop s)
stop-IsDown s (addr, r) = elim (stop_effect s.connection r) [
  | inl (up, off, gone) ↦ ap is_up off
  | inr (down, same, later) ↦
      ap (λ c. is_up c.state) same ∙ not_connected-is_up s.connection.state down
]

stop-All-IsDown :
    (slots : List Slot) → All IsReached slots → All IsDown (map (on_connection stop) slots)
stop-All-IsDown [] h = tt
stop-All-IsDown (s ∷ slots) h = (stop-IsDown s h.0, stop-All-IsDown slots h.1)

-- Nothing else happens to the proxy, whose clients have histories.
abbrev pub IsQuiet : Running → Type 0
IsQuiet p =
    (p.world.schedule ≡ [])
    × (length p.world.slots ≡ length (clients p.proxy))
    × All IsReached p.world.slots

abbrev pub stopped : Running → Running
stopped p = record p { world = record p.world { slots = map (on_connection stop) p.world.slots } }

stop_proxy-quiet : (p : Running) → IsQuiet p → (stop_proxy p.proxy p.world).1 ≡ (stopped p).world
unfolding stop_proxy
stop_proxy-quiet p (e, same, h) =
    subst
      (λ schedule.
        (stop_proxy p.proxy (record p.world { schedule = schedule })).1
        ≡ record p.world { slots = map (on_connection stop) p.world.slots; schedule = schedule })
      (sym e) (ap (λ o. o.1) (stop_from-quiet [] (clients p.proxy) p.world.slots p.world.log same))

-- Where nothing else happens, Stop of the server stops the connection of each client of each proxy,
-- and changes nothing else: no client is up after it.
pub stop_interceptors-quiet :
    (ps : List Running)
    → All IsQuiet ps
    → (stop_interceptors ps ≡ map stopped ps)
      × All (λ p. All IsDown p.world.slots) (stop_interceptors ps)
unfolding stop_interceptors
stop_interceptors-quiet [] h = (refl, tt)
stop_interceptors-quiet (p ∷ ps) (h, hs) =
    let rest = stop_interceptors-quiet ps hs in
    let e = stop_proxy-quiet p h in
    (
      rw (e, rest.0),
      (subst (λ w. All IsDown w.slots) (sym e) (stop-All-IsDown p.world.slots h.2), rest.1),
    )
