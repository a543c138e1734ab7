-- ===== src/Proxy/Logic.antt =====
-- Rules for what a request does whatever the schedule: what it returns, and which calls it logs.
pub mod Sections
pub mod Unfailing
pub mod Ensures
pub mod Makes
use criproxy.Prelude.{
  ◌≡◌, refl, ◌∙◌, ◌⊎◌, inl, inr, List, [], ◌∷◌, Option, none, some, arith, subst,
}
use criproxy.Errors.{Error}
use criproxy.Proxy.World.{
  Call, World, Out, ok, err, hang, panic, M, continue, ◌>>=◌, pure, fail, assert,
}

-- What holds of a result, if there is one.
abbrev pub Post {ℓ} : {A : Type 0} → (A → Type ℓ) → Out A → Type ℓ
Post Q (ok a) = Q a
Post Q _ = Unit

abbrev pub IsFailed : {A : Type 0} → Out A → Type 0
IsFailed (ok a) = ⊥
IsFailed _ = Unit

-- No call is made, and a result satisfies Q.
pub record Reads {A : Type 0} (Q : A → Type 0) (m : M A) : Type 0 where
  pub reads : (w : World) → ((m w).1.log ≡ w.log) × Post Q (m w).0

-- At most one call is made, which satisfies P; there is one if there is a result, and R relates the
-- calls before it and the call to the result.
abbrev pub Sent :
    {A : Type 0}
    → (Call → Type 0)
    → (List Call → Call → A → Type 0)
    → List Call
    → Out A × World
    → Type 0
Sent P R log out =
    (IsFailed out.0 × (out.1.log ≡ log))
    ⊎ ((call : Call) × (out.1.log ≡ call ∷ log) × P call × Post (R log call) out.0)

pub record Sends {A : Type 0} (P : Call → Type 0) (R : List Call → Call → A → Type 0) (m : M A)
    : Type 0 where
  pub sends : (w : World) → Sent P R w.log (m w)

module _ {A B : Type 0} where
  Reads-continue :
      (Q : A → Type 0) (S : B → Type 0) (o : Out A) (f : A → M B) (w w' : World)
      → w'.log ≡ w.log
      → Post Q o
      → ((a : A) → Q a → Reads S (f a))
      → ((continue o f w').1.log ≡ w.log) × Post S (continue o f w').0
  Reads-continue Q S (ok a) f w w' e q h = (((h a q).reads w').0 ∙ e, ((h a q).reads w').1)
  Reads-continue Q S (err x) f w w' e q h = (e, tt)
  Reads-continue Q S hang f w w' e q h = (e, tt)
  Reads-continue Q S panic f w w' e q h = (e, tt)

  pub Reads-bind :
      (Q : A → Type 0) (S : B → Type 0) (m : M A) (f : A → M B)
      → Reads Q m
      → ((a : A) → Q a → Reads S (f a))
      → Reads S (m >>= f)
  unfolding ◌>>=◌
  Reads-bind Q S m f r h = record {
    reads = λ w. Reads-continue Q S (m w).0 f w (m w).1 (r.reads w).0 (r.reads w).1 h;
  }

  Sends-continue :
      (Q : A → Type 0) (P : Call → Type 0) (R : List Call → Call → B → Type 0) (o : Out A)
      (f : A → M B) (w w' : World)
      → w'.log ≡ w.log
      → Post Q o
      → ((a : A) → Q a → Sends P R (f a))
      → Sent P R w.log (continue o f w')
  Sends-continue Q P R (ok a) f w w' e q h =
      subst (λ log. Sent P R log (f a w')) e ((h a q).sends w')
  Sends-continue Q P R (err x) f w w' e q h = inl (tt, e)
  Sends-continue Q P R hang f w w' e q h = inl (tt, e)
  Sends-continue Q P R panic f w w' e q h = inl (tt, e)

  -- What makes no call, and then what makes one.
  pub Sends-after :
      (Q : A → Type 0) (P : Call → Type 0) (R : List Call → Call → B → Type 0) (m : M A)
      (f : A → M B)
      → Reads Q m
      → ((a : A) → Q a → Sends P R (f a))
      → Sends P R (m >>= f)
  unfolding ◌>>=◌
  Sends-after Q P R m f r h = record {
    sends = λ w. Sends-continue Q P R (m w).0 f w (m w).1 (r.reads w).0 (r.reads w).1 h;
  }

  then_continue :
      (P : Call → Type 0) (R : List Call → Call → A → Type 0) (S : List Call → Call → B → Type 0)
      (o : Out A) (f : A → M B) (log : List Call) (w' : World)
      → Sent P R log (o, w')
      → ((call : Call) (a : A) → R log call a → Reads (S log call) (f a))
      → Sent P S log (continue o f w')
  then_continue P R S (ok a) f log w' (inl (failed, e)) h = absurd failed
  then_continue P R S (err x) f log w' (inl (failed, e)) h = inl (tt, e)
  then_continue P R S hang f log w' (inl (failed, e)) h = inl (tt, e)
  then_continue P R S panic f log w' (inl (failed, e)) h = inl (tt, e)
  then_continue P R S (ok a) f log w' (inr (call, e, p, q)) h =
      inr (call, ((h call a q).reads w').0 ∙ e, p, ((h call a q).reads w').1)
  then_continue P R S (err x) f log w' (inr (call, e, p, q)) h = inr (call, e, p, tt)
  then_continue P R S hang f log w' (inr (call, e, p, q)) h = inr (call, e, p, tt)
  then_continue P R S panic f log w' (inr (call, e, p, q)) h = inr (call, e, p, tt)

  -- What makes one call, and then what makes none.
  pub Sends-then :
      (P : Call → Type 0) (R : List Call → Call → A → Type 0) (S : List Call → Call → B → Type 0)
      (m : M A) (f : A → M B)
      → Sends P R m
      → ((log : List Call) (call : Call) (a : A) → R log call a → Reads (S log call) (f a))
      → Sends P S (m >>= f)
  unfolding ◌>>=◌
  Sends-then P R S m f s h = record {
    sends = λ w. then_continue P R S (m w).0 f w.log (m w).1 (s.sends w) (h w.log);
  }

module _ {A : Type 0} where
  pub Reads-pure : (Q : A → Type 0) (a : A) → Q a → Reads Q (pure a)
  Reads-pure Q a q = record { reads = λ w. (refl, q) }

  pub Reads-fail : (Q : A → Type 0) (e : Error) → Reads Q (fail e)
  Reads-fail Q e = record { reads = λ w. (refl, tt) }

  pub Reads-assert :
      (Q : A → Type 0) (o : Option A) → ((a : A) → o ≡ some a → Q a) → Reads Q (assert o)
  Reads-assert Q none h = record { reads = λ w. (refl, tt) }
  Reads-assert Q (some a) h = record { reads = λ w. (refl, h a refl) }

  pub Sends-of_failing :
      (P : Call → Type 0) (R : List Call → Call → A → Type 0) (m : M A)
      → Reads (λ _. ⊥) m
      → Sends P R m
  Sends-of_failing P R m r = record { sends = λ w. failing w (m w).0 (r.reads w).0 (r.reads w).1 }
    where
      failing :
          (w : World) (o : Out A)
          → (m w).1.log ≡ w.log
          → Post (λ _. ⊥) o
          → Sent P R w.log (o, (m w).1)
      failing w (ok a) e x = absurd x
      failing w (err y) e x = inl (tt, e)
      failing w hang e x = inl (tt, e)
      failing w panic e x = inl (tt, e)

  weaken-Post : {Q S : A → Type 0} (o : Out A) → ((a : A) → Q a → S a) → Post Q o → Post S o
  weaken-Post (ok a) h q = h a q
  weaken-Post (err e) h q = tt
  weaken-Post hang h q = tt
  weaken-Post panic h q = tt

  pub Reads-weaken : (Q S : A → Type 0) (m : M A) → Reads Q m → ((a : A) → Q a → S a) → Reads S m
  Reads-weaken Q S m r h = record {
    reads = λ w. ((r.reads w).0, weaken-Post {Q = Q} {S = S} (m w).0 h (r.reads w).1);
  }

module _ {A : Type 0} where
  weaken-Sent :
      (P P' : Call → Type 0) (R R' : List Call → Call → A → Type 0) (log : List Call)
      (out : Out A × World)
      → Sent P R log out
      → ((call : Call) → P call → P' call)
      → ((call : Call) (a : A) → R log call a → R' log call a)
      → Sent P' R' log out
  weaken-Sent P P' R R' log out (inl failed) h k = inl failed
  weaken-Sent P P' R R' log out (inr (call, e, p, q)) h k =
      inr (call, e, h call p, weaken-Post {Q = R log call} {S = R' log call} out.0 (k call) q)

  pub Sends-weaken :
      (P P' : Call → Type 0) (R R' : List Call → Call → A → Type 0) (m : M A)
      → Sends P R m
      → ((call : Call) → P call → P' call)
      → ((log : List Call) (call : Call) (a : A) → R log call a → R' log call a)
      → Sends P' R' m
  Sends-weaken P P' R R' m s h k = record {
    sends = λ w. weaken-Sent P P' R R' w.log (m w) (s.sends w) h (k w.log);
  }

  -- A result came with one call.
  pub Sends-ok :
      (P : Call → Type 0) (R : List Call → Call → A → Type 0) (m : M A)
      → Sends P R m
      → (w w' : World) (a : A) → m w ≡ (ok a, w')
      → (call : Call) × (w'.log ≡ call ∷ w.log) × P call × R w.log call a
  Sends-ok P R m s w w' a e = one_call (subst (Sent P R w.log) e (s.sends w))
    where
      one_call :
          Sent P R w.log (ok a, w')
          → (call : Call) × (w'.log ≡ call ∷ w.log) × P call × R w.log call a
      one_call (inl (failed, _)) = absurd failed
      one_call (inr sent) = sent

  keep_call :
      (P : Call → Type 0) (R : List Call → Call → A → Type 0) (log : List Call)
      (out : Out A × World)
      → Sent P R log out
      → Sent P (λ l call a. P call × R l call a) log out
  keep_call P R log out (inl failed) = inl failed
  keep_call P R log out (inr (call, e, p, q)) = inr (
    call,
    e,
    p,
    weaken-Post {Q = R log call} {S = λ a. P call × R log call a} out.0 (λ a h. (p, h)) q,
  )

  -- The result may speak of the call.
  pub Sends-with_call :
      (P : Call → Type 0) (R : List Call → Call → A → Type 0) (m : M A)
      → Sends P R m
      → Sends P (λ log call a. P call × R log call a) m
  Sends-with_call P R m s = record { sends = λ w. keep_call P R w.log (m w) (s.sends w) }
