-- ===== src/Text.antt =====
-- Go strings as lists of bytes, with the functions of the package `strings` that the proxy calls.
use Prim.Native.Char.{code}
use Prim.Native.String.{String}
use criproxy.Prelude.{
  ℕ, suc, ◌+◌, ◌-◌, ◌≡◌, refl, ◌↔◌, Bool, true, false, ◌&&◌, Option, none, some, List, [], ◌∷◌,
  ◌++◌, arith, ◌==◌, ltb, if◌then◌else◌, length, drop, take,
}

abbrev pub Text : Type 0
Text = List ℕ

-- The bytes of an ASCII literal.
abbrev pub codes : String → Text
codes String.[] = []
codes (String.◌∷◌ c s) = code c ∷ codes s

-- `a == b` on Go strings.
unfoldable pub text_eq : Text → Text → Bool
text_eq [] [] = true
text_eq [] (b ∷ bs) = false
text_eq (a ∷ as') [] = false
text_eq (a ∷ as') (b ∷ bs) = (a == b) && text_eq as' bs

-- strings.HasPrefix(s, prefix)
unfoldable pub has_prefix : Text → Text → Bool
has_prefix s [] = true
has_prefix [] (p ∷ ps) = false
has_prefix (c ∷ s) (p ∷ ps) = (c == p) && has_prefix s ps

-- strings.Index(s, sep), with none for -1
unfoldable pub index : Text → Text → Option ℕ
unfolding has_prefix
index [] sep = if has_prefix [] sep then some 0 else none
index (c ∷ s) sep =
    if has_prefix (c ∷ s) sep
    then some 0
    else elim (index s sep) [ none ↦ none | some n ↦ some (suc n) ]

-- strings.LastIndex(s, sep) at a separator that is not empty, with none for -1
unfoldable pub last_index : Text → Text → Option ℕ
unfolding has_prefix
last_index [] sep = none
last_index (c ∷ s) sep = elim (last_index s sep) [
  | some n ↦ some (suc n)
  | none ↦ if has_prefix (c ∷ s) sep then some 0 else none
]

-- strings.Contains(s, sep)
unfoldable pub contains : Text → Text → Bool
unfolding index
contains s sep = elim (index s sep) [ none ↦ false | some n ↦ true ]

-- strings.Replace(s, old, new, 1)
unfoldable pub replace_first : Text → Text → Text → Text
unfolding index
replace_first s old new = elim (index s old) [
  | none ↦ s
  | some n ↦ take n s ++ (new ++ drop (n + length old) s)
]

-- strings.HasSuffix(s, suffix)
unfoldable pub has_suffix : Text → Text → Bool
unfolding text_eq
has_suffix s suffix =
    if ltb (length s) (length suffix)
    then false
    else text_eq (drop (length s - length suffix) s) suffix

pub text_eq_iff : (a b : Text) → (text_eq a b ≡ true) ↔ (a ≡ b)
unfolding text_eq
text_eq_iff [] [] = (λ _. refl, λ _. refl)
text_eq_iff [] (b ∷ bs) = (λ h. cc, λ h. cc)
text_eq_iff (a ∷ as') [] = (λ h. cc, λ h. cc)
text_eq_iff (a ∷ as') (b ∷ bs) = ground (arith, text_eq_iff as' bs)

pub text_eq_refl : (a : Text) → text_eq a a ≡ true
text_eq_refl a = (text_eq_iff a a).1 refl

pub has_prefix-append : (p s : Text) → has_prefix (p ++ s) p ≡ true
unfolding has_prefix
has_prefix-append [] s = refl
has_prefix-append (c ∷ p) s = ground (arith, has_prefix-append p s)

-- A text with a prefix is the prefix, then what is left when it is cut off.
pub append-drop_of_has_prefix : (s p : Text) → has_prefix s p ≡ true → p ++ drop (length p) s ≡ s
unfolding has_prefix
append-drop_of_has_prefix s [] h = refl
append-drop_of_has_prefix [] (c ∷ p) h = cc
append-drop_of_has_prefix (d ∷ s) (c ∷ p) h = ground (arith, append-drop_of_has_prefix s p)
