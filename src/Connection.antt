-- ===== src/Connection.antt =====
-- clientConnection of pkg/proxy/apiclient.go: each function is one critical section. A channel is a
-- number, and the values sent to it are kept; `dialing` counts the goroutines of connectNonLocked.
pub mod Invariant
pub mod Delivery
use criproxy.Prelude.{
  ℕ, ◌+◌, ◌-◌, Bool, true, false, Option, none, some, List, [], ◌∷◌, ◌++◌, map, if◌then◌else◌,
}
use criproxy.Text.{Text}
use criproxy.Errors.{Error, is_unavailable, at_addr, connect_failed}

-- The constants are 1, 2 and 3 in the code; `unset` is the zero value, of a new connection.
pub data ClientState : Type 0 where
  unset offline connecting connected : ClientState

pub record Connection : Type 0 where
  pub addr : Text
  -- the gRPC connection, by its number
  pub conn : Option ℕ
  pub state : ClientState
  pub connect_err_chs : List ℕ
  pub sent : List (ℕ × Option Error)
  pub next_ch : ℕ
  pub next_conn : ℕ
  pub dialing : ℕ

unfoldable pub new_client_connection : Text → Connection
new_client_connection addr = record {
  addr = addr;
  conn = none;
  state = unset;
  connect_err_chs = [];
  sent = [];
  next_ch = 0;
  next_conn = 0;
  dialing = 0;
}

-- A value sent to each of the channels.
unfoldable pub send_all : Option Error → List ℕ → List (ℕ × Option Error) → List (ℕ × Option Error)
send_all v [] sent = sent
send_all v (ch ∷ chs) sent = send_all v chs ((ch, v) ∷ sent)

-- A new channel that waits for the end of the dialing.
abbrev waiting : Connection → Connection
waiting c = record c {
  connect_err_chs = c.connect_err_chs ++ (c.next_ch ∷ []);
  next_ch = c.next_ch + 1;
}

abbrev connect_by : ClientState → Connection → Connection
connect_by connected c = record c { sent = (c.next_ch, none) ∷ c.sent; next_ch = c.next_ch + 1 }
connect_by connecting c = waiting c
connect_by _ c = record (waiting c) { state = connecting; dialing = c.dialing + 1 }

-- connectNonLocked; the channel that it returns is `next_ch` of the connection before it.
unfoldable pub connect : Connection → Connection
connect c = connect_by c.state c

-- The end of the goroutine, where WaitForSocket gave no error.
unfoldable pub dial_succeeds : Connection → Connection
unfolding send_all
dial_succeeds c = record c {
  state = connected;
  conn = some c.next_conn;
  next_conn = c.next_conn + 1;
  sent = send_all none c.connect_err_chs c.sent;
  connect_err_chs = [];
  dialing = c.dialing - 1;
}

-- The end of the goroutine, where WaitForSocket gave an error: nothing but the channels changes.
unfoldable pub dial_fails : Error → Connection → Connection
unfolding send_all
dial_fails e c = record c {
  sent = send_all (some (connect_failed e)) c.connect_err_chs c.sent;
  dialing = c.dialing - 1;
}

-- stopNonLocked
unfoldable pub stop : Connection → Connection
stop c = elim c.conn [ none ↦ c | some conn ↦ record c { conn = none; state = offline } ]

-- handleError: the connection, and the error that is left.
unfoldable pub handle_error : Error → Bool → Connection → Connection × Option Error
unfolding is_unavailable stop connect
handle_error err tolerate_disconnect c =
    if is_unavailable err
    then (connect (stop c), if tolerate_disconnect then none else some (at_addr c.addr err))
    else (c, some (at_addr c.addr err))
