-- ===== src/Connection/Delivery.antt =====
-- What the channel of a connect receives, and what stopping does.
use criproxy.Prelude.{
  ℕ, ◌≡◌, refl, ◌≢◌, ◌⊎◌, inl, inr, Bool, true, false, Option, none, some, List, [], ◌∷◌, ◌++◌,
  arith, if◌then◌else◌, ◌==◌, Bool-cases,
}
use criproxy.Text.{Text}
use criproxy.Errors.{Error, at_addr, is_unavailable}
use criproxy.Connection.{
  ClientState, offline, connecting, connected, Connection, send_all, connect, connect_by,
  dial_succeeds, stop, handle_error,
}
use criproxy.Connection.Invariant.{Inv, Reach, Reach-Inv}

-- What was sent to the channel, if something was.
unfoldable pub received : ℕ → List (ℕ × Option Error) → Option (Option Error)
received ch [] = none
received ch ((x, v) ∷ sent) = if x == ch then some v else received ch sent

received-send_all_same :
    (ch : ℕ) (v : Option Error) (chs : List ℕ) (sent : List (ℕ × Option Error))
    → received ch sent ≡ some v
    → received ch (send_all v chs sent) ≡ some v
unfolding received send_all
received-send_all_same ch v [] sent h = h
received-send_all_same ch v (x ∷ chs) sent h =
    received-send_all_same ch v chs ((x, v) ∷ sent) (ground arith)

received-send_all :
    (ch : ℕ) (v : Option Error) (chs : List ℕ) (sent : List (ℕ × Option Error))
    → received ch (send_all v (chs ++ (ch ∷ [])) sent) ≡ some v
unfolding received send_all
received-send_all ch v [] sent = ground arith
received-send_all ch v (x ∷ chs) sent = received-send_all ch v chs ((x, v) ∷ sent)

received_here :
    (ch : ℕ) (v : Option Error) (sent : List (ℕ × Option Error))
    → received ch ((ch, v) ∷ sent) ≡ some v
unfolding received
received_here ch v sent = ground arith

-- What a connect makes of `c`, with its channel: an answer at once, or one when the dialing ends.
abbrev pub Answers : Connection → Connection → Type 0
Answers c d =
    ((c.state ≡ connected)
      × (received c.next_ch d.sent ≡ some none)
      × (d.state ≡ connected)
      × (d.conn ≡ c.conn))
    ⊎ ((c.state ≢ connected)
        × (d.state ≡ connecting)
        × (received c.next_ch (dial_succeeds d).sent ≡ some none)
        × ((dial_succeeds d).state ≡ connected))

connect_by-Answers : (s : ClientState) (c : Connection) → c.state ≡ s → Answers c (connect_by s c)
unfolding dial_succeeds
connect_by-Answers connected c e = inl (e, ground_received, e, refl)
  where
    ground_received : received c.next_ch ((c.next_ch, none) ∷ c.sent) ≡ some none
    ground_received = received_here c.next_ch none c.sent
connect_by-Answers s c e = inr (
  (λ up. ground arith),
  ground arith,
  received-send_all c.next_ch none c.connect_err_chs c.sent,
  refl,
)

-- A connect to a connection that is up is answered at once, with no error, and keeps the
-- connection. Any other leaves the state Connecting, and when the dialing succeeds its channel
-- receives nil and the state is Connected.
pub connect-Answers : (c : Connection) → Answers c (connect c)
unfolding connect
connect-Answers c = connect_by-Answers c.state c refl

-- Stopping closes a connection that is up. In any other state of a connection's history it does
-- nothing: one that is being dialed is up when the dialing succeeds, though it was stopped.
pub stop_effect :
    {addr : Text} (c : Connection)
    → Reach addr c
    → ((c.state ≡ connected) × ((stop c).state ≡ offline) × ((stop c).conn ≡ none))
      ⊎ ((c.state ≢ connected) × (stop c ≡ c) × ((dial_succeeds (stop c)).state ≡ connected))
unfolding stop dial_succeeds
stop_effect c r = let v = Reach-Inv r in ground (arith, v.has_conn)

connect-stop :
    (c : Connection)
    → Inv c
    → ((connect (stop c)).state ≡ connecting) × ((connect (stop c)).conn ≡ none)
unfolding connect stop
connect-stop c v = ground (arith, v.has_conn)

-- An error with the code Unavailable drops the connection and starts to dial again, or leaves the
-- dialing that goes on; the error is left out only if the disconnect is tolerated. Any other error
-- is returned with the address before it, and changes nothing.
pub handle_error_effect :
    {addr : Text} (c : Connection) (err : Error) (tolerate : Bool)
    → Reach addr c
    → ((is_unavailable err ≡ true)
        × ((handle_error err tolerate c).0.state ≡ connecting)
        × ((handle_error err tolerate c).0.conn ≡ none)
        × ((handle_error err tolerate c).1
            ≡ (if tolerate then none else some (at_addr c.addr err))))
      ⊎ ((is_unavailable err ≡ false)
          × (handle_error err tolerate c ≡ (c, some (at_addr c.addr err))))
unfolding handle_error
handle_error_effect c err tolerate r = elim (Bool-cases (is_unavailable err)) [
  | inl down ↦
      let (state, conn) = connect-stop c (Reach-Inv r) in
      rw (down, handle_error) (inl (refl, state, conn, refl))
  | inr other ↦ rw (other, handle_error) (inr (refl, refl))
]
