-- ===== src/Proxy/Quiet.antt =====
-- Worlds in which nothing else happens any more, with the clients of a loop by their places.
use criproxy.Prelude.{
  suc, ◌≡◌, refl, sym, ap, some, List, [], ◌∷◌, ◌++◌, length, get_elem?, append_assoc,
  length-append, arith,
}
use criproxy.Proxy.World.{Slot, Call, World, modify, ok, M, ◌>>=◌, tick, on_slot}

abbrev pub quiet : List Slot → List Call → World
quiet slots log = record { slots = slots; schedule = []; log = log }

module _ {A : Type 0} where
  pub get_elem?-append :
      (xs : List A) (x : A) (ys : List A) → get_elem? (xs ++ x ∷ ys) (length xs) ≡ some x
  get_elem?-append [] x ys = refl
  get_elem?-append (z ∷ xs) x ys = get_elem?-append xs x ys

  pub modify-append :
      (xs : List A) (x : A) (ys : List A) (f : A → A)
      → modify (length xs) f (xs ++ x ∷ ys) ≡ xs ++ f x ∷ ys
  unfolding modify
  modify-append [] x ys f = refl
  modify-append (z ∷ xs) x ys f = ap (λ l. z ∷ l) (modify-append xs x ys f)

  pub append_snoc : (xs : List A) (x : A) (ys : List A) → xs ++ x ∷ ys ≡ (xs ++ x ∷ []) ++ ys
  append_snoc xs x ys = sym (append_assoc xs (x ∷ []) ys)

  pub length_snoc : (xs : List A) (x : A) → length (xs ++ x ∷ []) ≡ suc (length xs)
  length_snoc xs x = omega (arith, length-append xs (x ∷ []))

-- A critical section on the client after those of `before`.
pub on_slot-quiet :
    {A : Type 0} (before : List Slot) (s : Slot) (after : List Slot) (log : List Call)
    (result : Slot → A) (change : Slot → Slot)
    → on_slot (length before) result change (quiet (before ++ s ∷ after) log)
      ≡ (ok (result s), quiet (before ++ change s ∷ after) log)
unfolding on_slot tick ◌>>=◌
on_slot-quiet before s after log result change =
    rw (get_elem?-append before s after, modify-append before s after change)

-- The first step of a request has this value, and leaves this world.
pub >>=-quiet :
    {A B : Type 0} (m : M A) (f : A → M B) (w w' : World) (a : A)
    → m w ≡ (ok a, w')
    → (m >>= f) w ≡ f a w'
unfolding ◌>>=◌
>>=-quiet m f w w' a e = rw e
