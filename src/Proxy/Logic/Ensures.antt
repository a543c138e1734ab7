-- ===== src/Proxy/Logic/Ensures.antt =====
-- Rules for what holds of the result of a request, whatever the schedule and the calls.
use criproxy.Prelude.{◌≡◌, refl, Bool, true, false, Option, none, some}
use criproxy.Errors.{Error}
use criproxy.Proxy.World.{World, Out, ok, err, hang, panic, M, continue, ◌>>=◌, pure, fail, assert}
use criproxy.Proxy.Logic.{Post}

-- A result, if there is one, satisfies Q.
pub record Ensures {A : Type 0} (Q : A → Type 0) (m : M A) : Type 0 where
  pub ensures : (w : World) → Post Q (m w).0

any_result : {A : Type 0} (o : Out A) → Post (λ a. Unit {0}) o
any_result (ok a) = tt
any_result (err e) = tt
any_result hang = tt
any_result panic = tt

module _ {A B : Type 0} where
  continue-Post :
      (Q : A → Type 0) (S : B → Type 0) (o : Out A) (f : A → M B) (w : World)
      → Post Q o
      → ((a : A) → Q a → Ensures S (f a))
      → Post S (continue o f w).0
  continue-Post Q S (ok a) f w q h = (h a q).ensures w
  continue-Post Q S (err e) f w q h = tt
  continue-Post Q S hang f w q h = tt
  continue-Post Q S panic f w q h = tt

  pub Ensures-bind :
      (Q : A → Type 0) (S : B → Type 0) (m : M A) (f : A → M B)
      → Ensures Q m
      → ((a : A) → Q a → Ensures S (f a))
      → Ensures S (m >>= f)
  unfolding ◌>>=◌
  Ensures-bind Q S m f u h = record {
    ensures = λ w. continue-Post Q S (m w).0 f (m w).1 (u.ensures w) h;
  }

  -- After a step of which nothing is known.
  pub Ensures-after :
      (S : B → Type 0) (m : M A) (f : A → M B) → ((a : A) → Ensures S (f a)) → Ensures S (m >>= f)
  Ensures-after S m f h =
      Ensures-bind (λ a. Unit {0}) S m f (record { ensures = λ w. any_result (m w).0 }) λ a _. h a

module _ {A : Type 0} (Q : A → Type 0) where
  pub Ensures-pure : (a : A) → Q a → Ensures Q (pure a)
  Ensures-pure a q = record { ensures = λ w. q }

  pub Ensures-fail : (e : Error) → Ensures Q (fail e)
  Ensures-fail e = record { ensures = λ w. tt }

  pub Ensures-assert : (o : Option A) → ((a : A) → o ≡ some a → Q a) → Ensures Q (assert o)
  Ensures-assert none h = record { ensures = λ w. tt }
  Ensures-assert (some a) h = record { ensures = λ w. h a refl }

  pub Ensures-if :
      (x y : M A) (b : Bool)
      → Ensures Q x
      → Ensures Q y
      → Ensures Q (elim b [ false ↦ x | true ↦ y ])
  Ensures-if x y false h k = h
  Ensures-if x y true h k = k

  pub Ensures-option :
      {B : Type 0} (x : M A) (f : B → M A) (o : Option B)
      → Ensures Q x
      → ((b : B) → Ensures Q (f b))
      → Ensures Q (elim o [ none ↦ x | some b ↦ f b ])
  Ensures-option x f none h k = h
  Ensures-option x f (some b) h k = k b

  weaken-Post : (S : A → Type 0) (o : Out A) → ((a : A) → Q a → S a) → Post Q o → Post S o
  weaken-Post S (ok a) h q = h a q
  weaken-Post S (err e) h q = tt
  weaken-Post S hang h q = tt
  weaken-Post S panic h q = tt

  pub Ensures-weaken :
      (S : A → Type 0) (m : M A) → Ensures Q m → ((a : A) → Q a → S a) → Ensures S m
  Ensures-weaken S m u h = record { ensures = λ w. weaken-Post S (m w).0 h (u.ensures w) }
