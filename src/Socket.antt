-- ===== src/Socket.antt =====
-- WaitForSocket of pkg/utils/utils.go, over what the operating system answers at each attempt.
pub mod Bounds
use criproxy.Prelude.{
  ℕ, zero, suc, ◌+◌, ◌-◌, ◌≤◌, ◌<◌, ◌≡◌, refl, ◌≢◌, ◌⊎◌, inl, inr, Bool, true, false, Option, none,
  some, arith, ltb,
}
use criproxy.Text.{Text}
use criproxy.Errors.{Error, socket}

-- One round: os.Stat fails, Dial fails, the extra check fails, or all is well. A call with no extra
-- check has no `check_failed`.
pub data Attempt : Type 0 where
  no_file no_answer : Text → Attempt
  check_failed : Error → Attempt
  ready : Attempt

-- The error returned, the sleeps between rounds, and the rounds made.
pub record Wait : Type 0 where
  pub err : Option Error
  pub sleeps : ℕ
  pub rounds : ℕ

-- `maxAttempts < 0 || n < maxAttempts`, where none is a negative number
abbrev goes_on : Option ℕ → ℕ → Bool
goes_on none n = true
goes_on (some max_attempts) n = ltb n max_attempts

-- The body of the loop, where `rest` makes the next rounds with the error and the sleeps so far.
unfoldable pub round : Attempt → (Option Error → ℕ → Option Wait) → ℕ → ℕ → Option Wait
round (no_file e) rest n sleeps = rest (some (socket e)) (suc sleeps)
round (no_answer e) rest n sleeps = rest (some (socket e)) (suc sleeps)
round (check_failed e) rest n sleeps = rest (some e) sleeps
round ready rest n sleeps = some (record { err = none; sleeps = sleeps; rounds = suc n })

module _ (attempts : ℕ → Attempt) (max_attempts : Option ℕ) where
  -- The loop on fuel; none means that the fuel ran out.
  unfoldable pub wait_from : ℕ → ℕ → Option Error → ℕ → Option Wait
  unfolding round
  wait_from zero n err sleeps = none
  wait_from (suc f) n err sleeps = elim (goes_on max_attempts n) [
    | false ↦ some (record { err = err; sleeps = sleeps; rounds = n })
    | true ↦ round (attempts n) (wait_from f (suc n)) n sleeps
  ]

  unfoldable pub wait_for_socket : ℕ → Option Wait
  unfolding wait_from
  wait_for_socket fuel = wait_from fuel 0 none 0
