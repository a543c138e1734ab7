-- ===== src/Proxy/Logic/Sections.antt =====
-- The critical sections of a request make no call of grpc.Invoke.
use criproxy.Prelude.{
  ℕ, ◌≡◌, refl, List, [], ◌∷◌, Option, none, some, get_elem?, Bool, false, arith,
}
use criproxy.Errors.{Error, at_addr}
use criproxy.Connection.{handle_error}
use criproxy.Proxy.World.{
  Slot, Event, World, Out, ok, err, hang, panic, tick, advance, with_slot, on_slot,
}
use criproxy.Proxy.Client.{
  connect_client, is_client_up, await, await_end, await_from, connect_and_wait, handle_client_error,
}
use criproxy.Proxy.Logic.{Reads, Post, Reads-bind}

abbrev pub Any : {A : Type 0} → A → Type 0
Any a = Unit

Any-result : {A : Type 0} (o : Out A) → Post {A = A} Any o
Any-result (ok a) = tt
Any-result (err e) = tt
Any-result hang = tt
Any-result panic = tt

log-advance : (bs : List (List Event)) (w : World) → (advance bs w).log ≡ w.log
log-advance [] w = refl
log-advance (b ∷ bs) w = refl

tick-Reads : Reads Any tick
unfolding tick
tick-Reads = record { reads = λ w. (log-advance w.schedule w, tt) }

module _ {A : Type 0} (i : ℕ) (result : Slot → A) (change : Slot → Slot) where
  with_slot_reads :
      (Q : A → Type 0)
      → ((s : Slot) → Q (result s))
      → (s : Option Slot) (w : World)
      → ((with_slot i result change s w).1.log ≡ w.log) × Post Q (with_slot i result change s w).0
  with_slot_reads Q h none w = (refl, tt)
  with_slot_reads Q h (some s) w = (refl, h s)

  -- What every state of a client gives is what the request reads.
  pub on_slot_satisfies :
      (Q : A → Type 0) → ((s : Slot) → Q (result s)) → Reads Q (on_slot i result change)
  unfolding on_slot
  on_slot_satisfies Q h =
      Reads-bind Any Q tick _ tick-Reads
        λ _ _. record { reads = λ w. with_slot_reads Q h (get_elem? w.slots i) w }

  pub on_slot-Reads : Reads Any (on_slot i result change)
  on_slot-Reads = on_slot_satisfies Any (λ s. tt)

pub connect_client-Reads : (i : ℕ) → Reads Any (connect_client i)
unfolding connect_client
connect_client-Reads i = on_slot-Reads i _ _

pub is_client_up-Reads : (i : ℕ) → Reads Any (is_client_up i)
unfolding is_client_up
is_client_up-Reads i = on_slot-Reads i _ _

pub handle_client_error-Reads :
    (i : ℕ) (e : Error) (tolerate : Bool) → Reads Any (handle_client_error i e tolerate)
unfolding handle_client_error
handle_client_error-Reads i e tolerate = on_slot-Reads i _ _

-- An error that is not tolerated is left.
pub handle_client_error_leaves :
    (i : ℕ) (e : Error)
    → Reads (λ left. (e' : Error) × (left ≡ some e')) (handle_client_error i e false)
unfolding handle_client_error handle_error
handle_client_error_leaves i e =
    on_slot_satisfies i _ _ _ λ s. (at_addr s.connection.addr e, ground arith)

await_end_log :
    (r : Option (Option Error) × List Slot × List (List Event)) (w : World)
    → (await_end r w).1.log ≡ w.log
await_end_log (none, slots, schedule) w = refl
await_end_log (some none, slots, schedule) w = refl
await_end_log (some (some e), slots, schedule) w = refl

await-Reads : (i ch : ℕ) → Reads Any (await i ch)
unfolding await
await-Reads i ch = record {
  reads = λ w. (await_end_log (await_from i ch w.schedule w.slots) w, Any-result _);
}

pub connect_and_wait-Reads : (i : ℕ) → Reads Any (connect_and_wait i)
unfolding connect_and_wait
connect_and_wait-Reads i =
    Reads-bind Any Any (connect_client i) (await i) (connect_client-Reads i)
      λ ch _. await-Reads i ch
