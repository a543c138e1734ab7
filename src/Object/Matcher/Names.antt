-- ===== src/Object/Matcher/Names.antt =====
-- Base names of types, and the parts of names with a suffix.
use criproxy.Prelude.{
  ℕ, zero, suc, ◌-◌, ◌≡◌, ◌≢◌, refl, sym, ap, ◌∙◌, subst, true, false, none, some, List, [], ◌∷◌,
  ◌++◌, ltb, length, take, drop, length-append, drop-length, arith, inl, inr, Bool-cases,
}
use criproxy.Text.{Text, codes, has_prefix, last_index, has_suffix, text_eq_iff, text_eq_refl}
use criproxy.Object.Matcher.{base_name}

module _ {A : Type 0} where
  pub take-append : (xs ys : List A) → take (length xs) (xs ++ ys) ≡ xs
  take-append [] ys = refl
  take-append (x ∷ xs) ys = ap (λ l. x ∷ l) (take-append xs ys)

  pub take-drop : (n : ℕ) (xs : List A) → take n xs ++ drop n xs ≡ xs
  take-drop zero xs = refl
  take-drop (suc n) [] = refl
  take-drop (suc n) (x ∷ xs) = ap (λ l. x ∷ l) (take-drop n xs)

  -- What is left of a text when what follows is cut off.
  pub append_cancel : (xs ys zs : List A) → xs ++ zs ≡ ys ++ zs → xs ≡ ys
  append_cancel xs ys zs e =
      sym (take-append xs zs)
      ∙ (ap (take (length xs)) e ∙ (ap (λ n. take n (ys ++ zs)) same ∙ take-append ys zs))
    where
      same : length xs ≡ length ys
      same = omega (arith, length-append xs zs, length-append ys zs, ap length e)

-- The name of a wrapper's type for a version.
abbrev pub versioned : Text → Text → Text
versioned v base = base ++ (codes "_" ++ v)

-- A version with no underscore.
abbrev pub IsVersion : Text → Type 0
IsVersion v = last_index v (codes "_") ≡ none

last_index-versioned :
    (v base : Text) → IsVersion v → last_index (versioned v base) (codes "_") ≡ some (length base)
unfolding last_index has_prefix
last_index-versioned v [] h = rw (h) refl
last_index-versioned v (c ∷ base) h = rw (last_index-versioned v base h) refl

pub base_name-versioned :
    (v base : Text) → IsVersion v → base ≢ [] → base_name (versioned v base) ≡ base
unfolding base_name last_index
base_name-versioned v [] h some_name = absurd (some_name refl)
base_name-versioned v (c ∷ base) h some_name =
    rw (last_index-versioned v (c ∷ base) h) (take-append (c ∷ base) (codes "_" ++ v))

suffix_length : (s suffix : Text) → length (s ++ suffix) - length suffix ≡ length s
suffix_length s suffix = omega (arith, length-append s suffix)

not_shorter : (s suffix : Text) → ltb (length (s ++ suffix)) (length suffix) ≡ false
not_shorter s suffix = ground (arith, length-append s suffix)

pub has_suffix-append : (s suffix : Text) → has_suffix (s ++ suffix) suffix ≡ true
unfolding has_suffix
has_suffix-append s suffix =
    rw (not_shorter s suffix, suffix_length s suffix, drop-length s suffix) (text_eq_refl suffix)

pub append-take_of_has_suffix :
    (s suffix : Text) → has_suffix s suffix ≡ true → take (length s - length suffix) s ++ suffix ≡ s
unfolding has_suffix
append-take_of_has_suffix s suffix h = elim (Bool-cases (ltb (length s) (length suffix))) [
  | inl short ↦ ground (arith)
  | inr long ↦
      let ends : drop (length s - length suffix) s ≡ suffix =
        (text_eq_iff _ suffix).0 (ground arith) in
      subst (λ l. take (length s - length suffix) s ++ l ≡ s) ends
        (take-drop (length s - length suffix) s)
]
