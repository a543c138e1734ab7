-- ===== src/Socket/Bounds.antt =====
-- How WaitForSocket ends.
use native.Mathlib.Decide.{dec_lt}
use criproxy.Prelude.{
  ℕ, zero, suc, ◌+◌, ◌≤◌, ◌<◌, ◌≡◌, refl, ◌⊎◌, inl, inr, Option, none, some, arith, ltb, Bool-cases,
}
use criproxy.Errors.{Error, socket}
use criproxy.Socket.{
  Attempt, no_file, no_answer, check_failed, ready, Wait, round, wait_from, wait_for_socket,
}

-- What holds of the result of the next rounds and of success holds of the result of this one.
round_cases {ℓ} :
    (P : Wait → Type ℓ) (a : Attempt) (rest : Option Error → ℕ → Option Wait) (n s : ℕ)
    → ((e : Error) (s : ℕ) → (w : Wait) × (rest (some e) s ≡ some w) × P w)
    → (a ≡ ready → P (record { err = none; sleeps = s; rounds = suc n }))
    → (w : Wait) × (round a rest n s ≡ some w) × P w
unfolding round
round_cases P (no_file e) rest n s h k = h (socket e) (suc s)
round_cases P (no_answer e) rest n s h k = h (socket e) (suc s)
round_cases P (check_failed e) rest n s h k = h e s
round_cases P ready rest n s h k = (record { err = none; sleeps = s; rounds = suc n }, refl, k refl)

module _ (attempts : ℕ → Attempt) (k : ℕ) (up : attempts k ≡ ready) where
  -- The first round that succeeds is `k` or one before it.
  abbrev pub Succeeds : Wait → Type 0
  Succeeds w = (w.err ≡ none) × (w.rounds ≤ k + 1)

  unlimited_returns :
      (f n : ℕ) (err : Option Error) (s : ℕ)
      → n ≤ k
      → k < n + f
      → (w : Wait) × (wait_from attempts none f n err s ≡ some w) × Succeeds w
  unfolding wait_from
  unlimited_returns zero n err s lo hi = absurd (omega arith)
  unlimited_returns (suc f) n err s lo hi = elim (dec_lt n k) [
    | yes below ↦
        round_cases Succeeds (attempts n) (wait_from attempts none f (suc n)) n s
          (λ e s'. unlimited_returns f (suc n) (some e) s' below (omega arith))
          (λ _. (refl, omega arith))
    | no above ↦
        let same : n ≡ k = omega arith in
        (
          record { err = none; sleeps = s; rounds = suc n },
          rw (same, up, round),
          (refl, omega arith),
        )
  ]

  -- With no limit on the attempts, and an attempt `k` that succeeds, the wait ends with no error
  -- after at most `k + 1` rounds: the fuel for `k + 1` rounds is enough.
  pub wait_for_socket_returns :
      (w : Wait) × (wait_for_socket attempts none (suc k) ≡ some w) × Succeeds w
  unfolding wait_for_socket
  wait_for_socket_returns = unlimited_returns (suc k) 0 none 0 (omega arith) (omega arith)

round-err :
    (a : Attempt) (rest : Option Error → ℕ → Option Wait) (n s : ℕ) (w : Wait)
    → ((e : Error) (s : ℕ) → rest (some e) s ≡ some w → w.err ≡ none)
    → round a rest n s ≡ some w
    → w.err ≡ none
unfolding round
round-err (no_file e) rest n s w h r = h (socket e) (suc s) r
round-err (no_answer e) rest n s w h r = h (socket e) (suc s) r
round-err (check_failed e) rest n s w h r = h e s r
round-err ready rest n s w h r = ground arith

unlimited-err :
    (attempts : ℕ → Attempt) (f n : ℕ) (err : Option Error) (s : ℕ) (w : Wait)
    → wait_from attempts none f n err s ≡ some w
    → w.err ≡ none
unfolding wait_from
unlimited-err attempts zero n err s w h = cc
unlimited-err attempts (suc f) n err s w h =
    round-err (attempts n) (wait_from attempts none f (suc n)) n s w
      (λ e s' r. unlimited-err attempts f (suc n) (some e) s' w r) h

-- With no limit on the attempts the wait never ends with an error.
pub wait_for_socket_no_error :
    (attempts : ℕ → Attempt) (fuel : ℕ) (w : Wait)
    → wait_for_socket attempts none fuel ≡ some w
    → w.err ≡ none
unfolding wait_for_socket
wait_for_socket_no_error attempts fuel w h = unlimited-err attempts fuel 0 none 0 w h

module _ (attempts : ℕ → Attempt) (m : ℕ) where
  -- Success at an attempt below the limit, or all the attempts made, with an error if there are any.
  abbrev pub Ends : Wait → Type 0
  Ends w =
      (w.rounds ≤ m)
      × (((w.err ≡ none) × ((k : ℕ) × (k < m) × (attempts k ≡ ready)))
          ⊎ ((w.rounds ≡ m) × ((w.err ≡ none) → m ≡ 0)))

  limited_returns :
      (f n : ℕ) (err : Option Error) (s : ℕ)
      → n ≤ m
      → m < n + f
      → ((err ≡ none) → n ≡ 0)
      → (w : Wait) × (wait_from attempts (some m) f n err s ≡ some w) × Ends w
  unfolding wait_from
  limited_returns zero n err s lo hi first = absurd (omega arith)
  limited_returns (suc f) n err s lo hi first = elim (Bool-cases (ltb n m)) [
    | inl below ↦
        rw (below, wait_from)
          (round_cases Ends (attempts n) (wait_from attempts (some m) f (suc n)) n s
            (λ e s'. limited_returns f (suc n) (some e) s' (ground arith) (omega arith) (λ x. cc))
            (λ up. (ground arith, inl (refl, (n, ground arith, up)))))
    | inr above ↦
        let same : n ≡ m = ground arith in
        (
          record { err = err; sleeps = s; rounds = n },
          rw (above, wait_from),
          (lo, inr (same, λ x. omega (arith, first x, same))),
        )
  ]

  -- With a limit of `m` attempts the wait always ends, after at most `m`: with no error at one that
  -- succeeds, or after all `m` of them, with an error unless `m` is 0.
  pub wait_for_socket_limited :
      (w : Wait) × (wait_for_socket attempts (some m) (suc m) ≡ some w) × Ends w
  unfolding wait_for_socket
  wait_for_socket_limited = limited_returns (suc m) 0 none 0 (omega arith) (omega arith) (λ x. refl)

module _ (attempts : ℕ → Attempt) (k : ℕ) (up : attempts k ≡ ready) where
  spins :
      ((i : ℕ) → i < k → (e : Error) × (attempts i ≡ check_failed e))
      → (f n : ℕ) (err : Option Error) → n ≤ k
      → k < n + f
      → wait_from attempts none f n err 0 ≡ some (record { err = none; sleeps = 0; rounds = suc k })
  unfolding wait_from round
  spins h zero n err lo hi = absurd (omega arith)
  spins h (suc f) n err lo hi = elim (dec_lt n k) [
    | yes below ↦
        let (e, failed) = h n below in
        rw (failed, round) (spins h f (suc n) (some e) below (omega arith))
    | no above ↦ let same : n ≡ k = omega arith in rw (same, up, round)
  ]

  -- Where the extra check alone fails before the attempt `k`, which succeeds, the wait makes `k + 1`
  -- rounds without a single sleep.
  pub wait_for_socket_spins :
      ((i : ℕ) → i < k → (e : Error) × (attempts i ≡ check_failed e))
      → wait_for_socket attempts none (suc k)
        ≡ some (record { err = none; sleeps = 0; rounds = suc k })
  unfolding wait_for_socket
  wait_for_socket_spins h = spins h (suc k) 0 none (omega arith) (omega arith)
