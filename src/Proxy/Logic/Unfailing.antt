-- ===== src/Proxy/Logic/Unfailing.antt =====
-- Rules for requests that never end with an error, whatever the schedule.
use criproxy.Prelude.{ℕ, ◌≡◌, refl, sym, subst, Option, none, some, get_elem?, Bool}
use criproxy.Errors.{Error}
use criproxy.Proxy.World.{
  Slot, World, Out, ok, err, hang, panic, M, continue, ◌>>=◌, pure, assert, tick, with_slot,
  on_slot,
}
use criproxy.Proxy.Client.{connect_client, is_client_up, handle_client_error}
use criproxy.Proxy.Logic.Sections.{Any}

abbrev pub Gives : {A : Type 0} → (A → Type 0) → Out A → Type 0
Gives Q (ok a) = Q a
Gives Q (err e) = ⊥
Gives Q _ = Unit

-- No error is returned, and a result satisfies Q.
pub record Unfailing {A : Type 0} (Q : A → Type 0) (m : M A) : Type 0 where
  pub unfailing : (w : World) → Gives Q (m w).0

module _ {A B : Type 0} where
  continue-Gives :
      (Q : A → Type 0) (S : B → Type 0) (o : Out A) (f : A → M B) (w : World)
      → Gives Q o
      → ((a : A) → Q a → Unfailing S (f a))
      → Gives S (continue o f w).0
  continue-Gives Q S (ok a) f w q h = (h a q).unfailing w
  continue-Gives Q S (err e) f w q h = absurd q
  continue-Gives Q S hang f w q h = tt
  continue-Gives Q S panic f w q h = tt

  pub Unfailing-bind :
      (Q : A → Type 0) (S : B → Type 0) (m : M A) (f : A → M B)
      → Unfailing Q m
      → ((a : A) → Q a → Unfailing S (f a))
      → Unfailing S (m >>= f)
  unfolding ◌>>=◌
  Unfailing-bind Q S m f u h = record {
    unfailing = λ w. continue-Gives Q S (m w).0 f (m w).1 (u.unfailing w) h;
  }

  -- The same where the value is known.
  pub Unfailing-then :
      (S : B → Type 0) (m : M A) (f : A → M B) (a : A)
      → Unfailing (λ b. b ≡ a) m
      → Unfailing S (f a)
      → Unfailing S (m >>= f)
  Unfailing-then S m f a u v =
      Unfailing-bind _ S m f u λ b e. subst (λ c. Unfailing S (f c)) (sym e) v

module _ {A : Type 0} where
  Gives-weaken : (Q S : A → Type 0) (o : Out A) → ((a : A) → Q a → S a) → Gives Q o → Gives S o
  Gives-weaken Q S (ok a) h q = h a q
  Gives-weaken Q S (err e) h q = q
  Gives-weaken Q S hang h q = tt
  Gives-weaken Q S panic h q = tt

  pub Unfailing-weaken :
      (Q S : A → Type 0) (m : M A) → ((a : A) → Q a → S a) → Unfailing Q m → Unfailing S m
  Unfailing-weaken Q S m h u = record {
    unfailing = λ w. Gives-weaken Q S (m w).0 h (u.unfailing w);
  }

  pub Unfailing-pure : (Q : A → Type 0) (a : A) → Q a → Unfailing Q (pure a)
  Unfailing-pure Q a q = record { unfailing = λ w. q }

  pub Unfailing-assert :
      (Q : A → Type 0) (o : Option A) → ((a : A) → o ≡ some a → Q a) → Unfailing Q (assert o)
  Unfailing-assert Q none h = record { unfailing = λ w. tt }
  Unfailing-assert Q (some a) h = record { unfailing = λ w. h a refl }

  with_slot-Gives :
      (i : ℕ) (result : Slot → A) (change : Slot → Slot) (s : Option Slot) (w : World)
      → Gives {A = A} Any (with_slot i result change s w).0
  with_slot-Gives i result change none w = tt
  with_slot-Gives i result change (some s) w = tt

  pub on_slot-Unfailing :
      (i : ℕ) (result : Slot → A) (change : Slot → Slot) → Unfailing Any (on_slot i result change)
  unfolding on_slot tick
  on_slot-Unfailing i result change =
      Unfailing-bind Any Any tick _ (record { unfailing = λ w. tt })
        λ t _. record { unfailing = λ w. with_slot-Gives i result change (get_elem? w.slots i) w }

pub connect_client-Unfailing : (i : ℕ) → Unfailing Any (connect_client i)
unfolding connect_client
connect_client-Unfailing i = on_slot-Unfailing i _ _

pub is_client_up-Unfailing : (i : ℕ) → Unfailing Any (is_client_up i)
unfolding is_client_up
is_client_up-Unfailing i = on_slot-Unfailing i _ _

pub handle_client_error-Unfailing :
    (i : ℕ) (e : Error) (tolerate : Bool) → Unfailing Any (handle_client_error i e tolerate)
unfolding handle_client_error
handle_client_error-Unfailing i e tolerate = on_slot-Unfailing i _ _
