-- ===== src/Connection/Invariant.antt =====
-- Every history of a connection whose dialing does not fail: one goroutine dials while the state
-- is Connecting and none otherwise, and a channel gets one value.
use criproxy.Prelude.{
  ℕ, ◌+◌, ◌<◌, ◌≡◌, refl, Bool, true, false, Option, none, List, [], ◌∷◌, ◌++◌, arith,
  if◌then◌else◌, ◌==◌, ltb, is_some, inl, inr, Bool-cases,
}
use criproxy.Text.{Text}
use criproxy.Errors.{Error, is_unavailable}
use criproxy.Connection.{
  ClientState, connecting, connected, Connection, new_client_connection, send_all, connect,
  connect_by, dial_succeeds, stop, handle_error,
}

pub data Step : Connection → Connection → Type 0 where
  connects : (c : Connection) → Step c (connect c)
  dials : (c : Connection) → 0 < c.dialing → Step c (dial_succeeds c)
  stops : (c : Connection) → Step c (stop c)
  fails : (c : Connection) (err : Error) (tolerate : Bool) → Step c (handle_error err tolerate c).0

pub data Reach (addr : Text) : Connection → Type 0 where
  here : Reach addr (new_client_connection addr)
  next : {c d : Connection} → Reach addr c → Step c d → Reach addr d

abbrev pub count : ℕ → List ℕ → ℕ
count ch [] = 0
count ch (x ∷ xs) = (if x == ch then 1 else 0) + count ch xs

abbrev pub count_sent : ℕ → List (ℕ × Option Error) → ℕ
count_sent ch [] = 0
count_sent ch ((x, v) ∷ xs) = (if x == ch then 1 else 0) + count_sent ch xs

abbrev pub is_connected : ClientState → Bool
is_connected connected = true
is_connected _ = false

abbrev pub is_connecting : ClientState → Bool
is_connecting connecting = true
is_connecting _ = false

abbrev pub is_empty : List ℕ → Bool
is_empty [] = true
is_empty (x ∷ xs) = false

pub record Inv (c : Connection) : Type 0 where
  -- There is a gRPC connection exactly in the state Connected.
  pub has_conn : is_some c.conn ≡ is_connected c.state
  pub one_dialing : c.dialing ≡ (if is_connecting c.state then 1 else 0)
  -- Channels wait exactly in the state Connecting.
  pub waits : is_connecting c.state ≡ (if is_empty c.connect_err_chs then false else true)
  -- A channel that was made waits, or was sent one value.
  pub one_value :
      (ch : ℕ)
      → count ch c.connect_err_chs + count_sent ch c.sent ≡ (if ltb ch c.next_ch then 1 else 0)

count-append :
    (ch : ℕ) (xs : List ℕ) (x : ℕ)
    → count ch (xs ++ (x ∷ [])) ≡ count ch xs + (if x == ch then 1 else 0)
count-append ch [] x = omega arith
count-append ch (y ∷ xs) x = omega (arith, count-append ch xs x)

count_sent-send_all :
    (ch : ℕ) (v : Option Error) (chs : List ℕ) (sent : List (ℕ × Option Error))
    → count_sent ch (send_all v chs sent) ≡ count ch chs + count_sent ch sent
unfolding send_all
count_sent-send_all ch v [] sent = omega arith
count_sent-send_all ch v (x ∷ chs) sent =
    omega (arith, count_sent-send_all ch v chs ((x, v) ∷ sent))

is_empty-append : (xs : List ℕ) (x : ℕ) → is_empty (xs ++ (x ∷ [])) ≡ false
is_empty-append [] x = refl
is_empty-append (y ∷ xs) x = refl

connect_by-Inv : (s : ClientState) (c : Connection) → c.state ≡ s → Inv c → Inv (connect_by s c)
connect_by-Inv connected c e v = record {
  has_conn = ground arith;
  one_dialing = ground arith;
  waits = ground arith;
  one_value = λ ch. ground (arith, v.one_value ch);
}
connect_by-Inv s c e v = record {
  has_conn = ground arith;
  one_dialing = ground arith;
  waits = ground (arith, is_empty-append c.connect_err_chs c.next_ch);
  one_value = λ ch. ground (arith, v.one_value ch, count-append ch c.connect_err_chs c.next_ch);
}

connect-Inv : (c : Connection) → Inv c → Inv (connect c)
unfolding connect
connect-Inv c v = connect_by-Inv c.state c refl v

stop-Inv : (c : Connection) → Inv c → Inv (stop c)
unfolding stop
stop-Inv c v = record {
  has_conn = ground arith;
  one_dialing = ground arith;
  waits = ground arith;
  one_value = λ ch. ground (arith, v.one_value ch);
}

dial_succeeds-Inv : (c : Connection) → 0 < c.dialing → Inv c → Inv (dial_succeeds c)
unfolding dial_succeeds
dial_succeeds-Inv c busy v = record {
  has_conn = refl;
  one_dialing = ground arith;
  waits = refl;
  one_value =
      λ ch. ground (arith, v.one_value ch, count_sent-send_all ch none c.connect_err_chs c.sent);
}

handle_error-Inv :
    (c : Connection) (err : Error) (tolerate : Bool) → Inv c → Inv (handle_error err tolerate c).0
unfolding handle_error
handle_error-Inv c err tolerate v = elim (Bool-cases (is_unavailable err)) [
  | inl down ↦ rw (down, handle_error) (connect-Inv (stop c) (stop-Inv c v))
  | inr other ↦ rw (other, handle_error) v
]

new-Inv : (addr : Text) → Inv (new_client_connection addr)
unfolding new_client_connection
new-Inv addr = record {
  has_conn = refl;
  one_dialing = refl;
  waits = refl;
  one_value = λ ch. ground arith;
}

pub Step-Inv : {c d : Connection} → Step c d → Inv c → Inv d
Step-Inv (connects c) v = connect-Inv c v
Step-Inv (dials c busy) v = dial_succeeds-Inv c busy v
Step-Inv (stops c) v = stop-Inv c v
Step-Inv (fails c err tolerate) v = handle_error-Inv c err tolerate v

-- After any history of connects, successful dials, stops and errors handled: the connection is
-- there exactly in the state Connected; one goroutine dials in the state Connecting and none in any
-- other; channels wait exactly in that state; and every channel made so far either waits or was
-- sent exactly one value, so that no send to a channel of capacity one blocks.
pub Reach-Inv : {addr : Text} {c : Connection} → Reach addr c → Inv c
Reach-Inv {addr} here = new-Inv addr
Reach-Inv (next r s) = Step-Inv s (Reach-Inv r)
