-- ===== src/Proxy/Logic/Makes.antt =====
-- Rules for the calls that a request makes, any number of them, whatever the schedule.
use criproxy.Prelude.{
  ◌≡◌, refl, sym, ap, ◌∙◌, Bool, true, false, Option, none, some, List, [], ◌∷◌, ◌++◌, append_assoc,
  All, All-append,
}
use criproxy.Proxy.World.{Call, World, Out, ok, err, hang, panic, M, continue, ◌>>=◌, pure, assert}
use criproxy.Proxy.Logic.{Post, Reads}

-- The calls made satisfy P, and a result, if there is one, satisfies Q.
abbrev pub Made : {A : Type 0} → (Call → Type 0) → (A → Type 0) → List Call → Out A × World → Type 0
Made P Q log out = (new : List Call) × (out.1.log ≡ new ++ log) × All P new × Post Q out.0

pub record Makes {A : Type 0} (P : Call → Type 0) (Q : A → Type 0) (m : M A) : Type 0 where
  pub makes : (w : World) → Made P Q w.log (m w)

module _ (P : Call → Type 0) where
  module _ {B : Type 0} where
    more :
        (S : B → Type 0) (log new : List Call) (out : Out B × World) (w' : World)
        → w'.log ≡ new ++ log
        → All P new
        → Made P S w'.log out
        → Made P S log out
    more S log new out w' e h (newer, f, k, q) = (
      newer ++ new,
      f ∙ (ap (λ l. newer ++ l) e ∙ sym (append_assoc newer new log)),
      All-append P newer new k h,
      q,
    )

  module _ {A B : Type 0} where
    Makes-continue :
        (Q : A → Type 0) (S : B → Type 0) (log : List Call) (o : Out A) (f : A → M B) (w' : World)
        → Made P Q log (o, w')
        → ((a : A) → Q a → Makes P S (f a))
        → Made P S log (continue o f w')
    Makes-continue Q S log (ok a) f w' (new, e, h, q) k =
        more S log new (f a w') w' e h ((k a q).makes w')
    Makes-continue Q S log (err x) f w' (new, e, h, q) k = (new, e, h, tt)
    Makes-continue Q S log hang f w' (new, e, h, q) k = (new, e, h, tt)
    Makes-continue Q S log panic f w' (new, e, h, q) k = (new, e, h, tt)

    pub Makes-bind :
        (Q : A → Type 0) (S : B → Type 0) (m : M A) (f : A → M B)
        → Makes P Q m
        → ((a : A) → Q a → Makes P S (f a))
        → Makes P S (m >>= f)
    unfolding ◌>>=◌
    Makes-bind Q S m f u k = record {
      makes = λ w. Makes-continue Q S w.log (m w).0 f (m w).1 (u.makes w) k;
    }

  module _ {A : Type 0} (Q : A → Type 0) where
    pub Makes-pure : (a : A) → Q a → Makes P Q (pure a)
    Makes-pure a q = record { makes = λ w. ([], refl, tt, q) }

    pub Makes-assert : (o : Option A) → ((a : A) → o ≡ some a → Q a) → Makes P Q (assert o)
    Makes-assert none h = record { makes = λ w. ([], refl, tt, tt) }
    Makes-assert (some a) h = record { makes = λ w. ([], refl, tt, h a refl) }

    -- What makes no call.
    pub Makes-of_reading : (m : M A) → Reads Q m → Makes P Q m
    Makes-of_reading m r = record { makes = λ w. ([], (r.reads w).0, tt, (r.reads w).1) }

    pub Makes-if :
        (x y : M A) (b : Bool)
        → Makes P Q x
        → Makes P Q y
        → Makes P Q (elim b [ false ↦ x | true ↦ y ])
    Makes-if x y false h k = h
    Makes-if x y true h k = k

    pub Makes-option :
        {B : Type 0} (x : M A) (f : B → M A) (o : Option B)
        → Makes P Q x
        → ((b : B) → Makes P Q (f b))
        → Makes P Q (elim o [ none ↦ x | some b ↦ f b ])
    Makes-option x f none h k = h
    Makes-option x f (some b) h k = k b

module _ {A : Type 0} (Q : A → Type 0) where
  weaken_calls :
      (P P' : Call → Type 0) (calls : List Call)
      → ((call : Call) → P call → P' call)
      → All P calls
      → All P' calls
  weaken_calls P P' [] k h = tt
  weaken_calls P P' (call ∷ calls) k h = (k call h.0, weaken_calls P P' calls k h.1)

  pub Makes-weaken :
      (P P' : Call → Type 0) (m : M A)
      → Makes P Q m
      → ((call : Call) → P call → P' call)
      → Makes P' Q m
  Makes-weaken P P' m u k = record {
    makes = λ w. let (new, e, h, q) = u.makes w in (new, e, weaken_calls P P' new k h, q);
  }
