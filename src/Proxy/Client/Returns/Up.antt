-- ===== src/Proxy/Client/Returns/Up.antt =====
-- Requests that have a result, and a client that is up while no other events happen.
use criproxy.Prelude.{
  ℕ, zero, suc, ◌≡◌, refl, sym, ap, ◌∙◌, true, Option, none, some, List, [], ◌∷◌, get_elem?, arith,
  subst,
}
use criproxy.Connection.{Connection, connected, connect}
use criproxy.Connection.Delivery.{received}
use criproxy.Proxy.World.{
  Next, Slot, World, modify, ok, M, ◌>>=◌, assert, tick, on_connection, on_slot, Call,
}
use criproxy.Proxy.Client.{
  is_up, connect_client, is_client_up, received_by, await_from, await, connect_and_wait,
}

-- The request has a result in a world, with what holds of it and of the world after it.
abbrev pub Returns : {A : Type 0} → M A → World → (A → World → Type 0) → Type 0
Returns {A} m w Q = (a : A) × (w' : World) × (m w ≡ (ok a, w')) × Q a w'

pub Returns-bind :
    {A B : Type 0} (m : M A) (f : A → M B) (w : World) (Q : A → World → Type 0)
    (S : B → World → Type 0)
    → Returns m w Q
    → ((a : A) (w' : World) → Q a w' → Returns (f a) w' S)
    → Returns (m >>= f) w S
unfolding ◌>>=◌
Returns-bind m f w Q S (a, w', e, q) h = let (b, v, k, s) = h a w' q in (b, v, rw (e, k), s)

-- The next step of a request whose first one gives a value that is known.
pub Returns-then :
    {A B : Type 0} (m : M A) (f : A → M B) (w : World) (a : A) (P : World → Type 0)
    (S : B → World → Type 0)
    → Returns m w (λ b v. (b ≡ a) × P v)
    → ((v : World) → P v → Returns (f a) v S)
    → Returns (m >>= f) w S
Returns-then m f w a P S r h =
    Returns-bind m f w _ S r λ b v k. subst (λ c. Returns (f c) v S) (sym k.0) (h v k.1)

pub Returns-assert :
    {A : Type 0} (o : Option A) (a : A) (w : World)
    → o ≡ some a
    → Returns (assert o) w (λ b v. (b ≡ a) × (v ≡ w))
Returns-assert o a w e = (a, w, rw e, (refl, refl))

-- The client at a place is up, nothing else happens any more, and these calls were made.
pub record IsUp (next : Next) (i : ℕ) (log : List Call) (w : World) : Type 0 where
  pub quiet : w.schedule ≡ []
  pub logged : w.log ≡ log
  pub slot : Slot
  pub here : get_elem? w.slots i ≡ some slot
  pub state : slot.connection.state ≡ connected
  pub behind : slot.next ≡ some next

get_elem?-modify :
    {A : Type 0} (i : ℕ) (f : A → A) (xs : List A) (x : A)
    → get_elem? xs i ≡ some x
    → get_elem? (modify i f xs) i ≡ some (f x)
unfolding modify
get_elem?-modify i f [] x e = cc
get_elem?-modify zero f (y ∷ ys) x e = ground arith
get_elem?-modify (suc i) f (y ∷ ys) x e = get_elem?-modify i f ys x e

connect_up :
    (c : Connection)
    → c.state ≡ connected
    → ((connect c).state ≡ connected) × (received c.next_ch (connect c).sent ≡ some none)
unfolding connect received
connect_up c e = ground arith

received_by-eq :
    (i ch : ℕ) (slots : List Slot) (s : Slot)
    → get_elem? slots i ≡ some s
    → received_by i ch slots ≡ received ch s.connection.sent
unfolding received_by
received_by-eq i ch slots s e = rw (e, received_by)

module _ {next : Next} {i : ℕ} {log : List Call} {w : World} (u : IsUp next i log w) where
  abbrev changed : (Slot → Slot) → World
  changed change = record w { slots = modify i change w.slots }

  on_slot_eq :
      {A : Type 0} (result : Slot → A) (change : Slot → Slot)
      → on_slot i result change w ≡ (ok (result u.slot), changed change)
  unfolding on_slot tick ◌>>=◌ modify
  on_slot_eq result change = rw (u.quiet, u.here)

  changed-IsUp :
      (change : Slot → Slot)
      → (change u.slot).connection.state ≡ connected
      → (change u.slot).next ≡ some next
      → IsUp next i log (changed change)
  changed-IsUp change up next_kept = record {
    quiet = u.quiet;
    logged = u.logged;
    slot = change u.slot;
    here = get_elem?-modify i change w.slots u.slot u.here;
    state = up;
    behind = next_kept;
  }

  -- What is read of the client, which stays as it is.
  pub read_returns :
      {A : Type 0} (result : Slot → A)
      → Returns (on_slot i result (λ s. s)) w (λ a v. (a ≡ result u.slot) × IsUp next i log v)
  read_returns result = (
    result u.slot,
    changed (λ s. s),
    on_slot_eq result (λ s. s),
    (refl, changed-IsUp (λ s. s) u.state u.behind),
  )

  pub assert_returns :
      {A : Type 0} (o : Option A) (a : A)
      → o ≡ some a
      → Returns (assert o) w (λ b v. (b ≡ a) × IsUp next i log v)
  assert_returns o a e = (a, w, rw e, (refl, u))

  pub is_client_up_returns : Returns (is_client_up i) w (λ up v. (up ≡ true) × IsUp next i log v)
  unfolding is_client_up
  is_client_up_returns =
      let (up, v, e, (read, kept)) = read_returns (λ s. is_up s.connection.state) in
      (up, v, e, (read ∙ ap is_up u.state, kept))

  -- The channel has its value at once.
  pub connect_client_returns :
      Returns
        (connect_client i)
        w
        (λ ch v. (received_by i ch v.slots ≡ some none) × IsUp next i log v)
  unfolding connect_client
  connect_client_returns =
      let (up, answered) = connect_up u.slot.connection u.state in
      let kept = changed-IsUp (on_connection connect) up u.behind in
      (
        u.slot.connection.next_ch,
        changed (on_connection connect),
        on_slot_eq _ _,
        (
          received_by-eq i u.slot.connection.next_ch _ (on_connection connect u.slot)
                (get_elem?-modify i (on_connection connect) w.slots u.slot u.here)
              ∙ answered,
          kept,
        ),
      )

  await_returns :
      (ch : ℕ)
      → received_by i ch w.slots ≡ some none
      → Returns (await i ch) w (λ t v. IsUp next i log v)
  unfolding await await_from
  await_returns ch e = (
    tt,
    record w { schedule = [] },
    rw (u.quiet, e),
    record {
      quiet = refl;
      logged = u.logged;
      slot = u.slot;
      here = u.here;
      state = u.state;
      behind = u.behind;
    },
  )

pub connect_and_wait_returns :
    {next : Next} {i : ℕ} {log : List Call} {w : World}
    → IsUp next i log w
    → Returns (connect_and_wait i) w (λ t v. IsUp next i log v)
unfolding connect_and_wait
connect_and_wait_returns {next} {i} {log} {w} u =
    Returns-bind _ _ w _ _ (connect_client_returns u) λ ch v h. await_returns h.1 ch h.0
