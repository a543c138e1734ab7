-- ===== src/Tests/Connections.antt =====
-- Histories of a connection, and waits for a socket.
use criproxy.Prelude.{
  ℕ, ◌<◌, ◌≡◌, refl, ◌⊎◌, ◌≢◌, true, false, none, some, [], ◌∷◌, arith, ◌==◌, if◌then◌else◌,
}
use criproxy.Text.{Text, codes}
use criproxy.Errors.{Error, unavailable, rpc, is_unavailable, at_addr}
use criproxy.Connection.{
  connected, connecting, offline, Connection, new_client_connection, connect, dial_succeeds, stop,
  handle_error, send_all,
}
use criproxy.Connection.Invariant.{Reach, here, next, connects, dials, fails, Inv, Reach-Inv}
use criproxy.Connection.Delivery.{
  received, Answers, connect-Answers, stop_effect, handle_error_effect,
}
use criproxy.Socket.{Attempt, no_file, check_failed, ready, Wait, wait_for_socket}
use criproxy.Socket.Bounds.{
  Succeeds, Ends, wait_for_socket_returns, wait_for_socket_no_error, wait_for_socket_limited,
  wait_for_socket_spins,
}

connections : Unit {0}
unfolding connect dial_succeeds stop handle_error new_client_connection send_all is_unavailable
    received
connections = tt

abbrev addr : Text
addr = codes "/run/alt.sock"

abbrev down : Error
down = rpc unavailable (codes "gone")

-- A connection that was dialed, lost, and dialed again.
abbrev lost : Connection
lost = (handle_error down true (dial_succeeds (connect (new_client_connection addr)))).0

lost-Reach : Reach addr lost
unfolding connections
lost-Reach = next (next (next here (connects _)) (dials _ (omega arith))) (fails _ down true)

lost_test : lost.state ≡ connecting
unfolding connections
lost_test = refl

-- The first channel got nil, and the one of the second dialing waits.
channels_test : (received 0 lost.sent ≡ some none) × (lost.connect_err_chs ≡ 1 ∷ [])
unfolding connections
channels_test = (refl, refl)

Reach-Inv_example : Inv lost
Reach-Inv_example = Reach-Inv lost-Reach

connect-Answers_example : Answers lost (connect lost)
connect-Answers_example = connect-Answers lost

stop_effect_example :
    ((lost.state ≡ connected) × ((stop lost).state ≡ offline) × ((stop lost).conn ≡ none))
    ⊎ ((lost.state ≢ connected)
        × (stop lost ≡ lost)
        × ((dial_succeeds (stop lost)).state ≡ connected))
stop_effect_example = stop_effect lost lost-Reach

handle_error_effect_example :
    ((is_unavailable down ≡ true)
      × ((handle_error down false lost).0.state ≡ connecting)
      × ((handle_error down false lost).0.conn ≡ none)
      × ((handle_error down false lost).1
          ≡ (if false then none else some (at_addr lost.addr down))))
    ⊎ ((is_unavailable down ≡ false)
        × (handle_error down false lost ≡ (lost, some (at_addr lost.addr down))))
handle_error_effect_example = handle_error_effect lost down false lost-Reach

-- The file is not there, then the probe fails, then all is well.
abbrev late : ℕ → Attempt
late n = if n == 0 then no_file (codes "gone") else if n == 1 then check_failed down else ready

wait_for_socket_returns_example :
    (w : Wait) × (wait_for_socket late none 4 ≡ some w) × Succeeds late 3 refl w
wait_for_socket_returns_example = wait_for_socket_returns late 3 refl

abbrev late_wait : Wait
late_wait = record { err = none; sleeps = 1; rounds = 3 }

wait_for_socket_no_error_test : late_wait.err ≡ none
unfolding wait_for_socket
wait_for_socket_no_error_test = wait_for_socket_no_error late 4 late_wait refl

wait_for_socket_limited_example :
    (w : Wait) × (wait_for_socket late (some 2) 3 ≡ some w) × Ends late 2 w
wait_for_socket_limited_example = wait_for_socket_limited late 2

abbrev failing_probe : ℕ → Attempt
failing_probe n = if n == 5 then ready else check_failed down

failing_probe_before : (i : ℕ) → i < 5 → (e : Error) × (failing_probe i ≡ check_failed e)
failing_probe_before i h = (down, ground arith)

wait_for_socket_spins_example :
    wait_for_socket failing_probe none 6 ≡ some (record { err = none; sleeps = 0; rounds = 6 })
wait_for_socket_spins_example = wait_for_socket_spins failing_probe 5 refl failing_probe_before
