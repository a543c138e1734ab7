-- ===== src/Object/Matcher/Registered.antt =====
-- What a matcher finds for a request, after the types of one version were registered.
use criproxy.Prelude.{
  ◌≡◌, ◌≢◌, refl, sym, ap, ◌∙◌, Bool, true, false, ◌||◌, Option, none, some, List, [], ◌∷◌, ◌++◌,
  map, All, if◌then◌else◌, length, take, ◌-◌, inl, inr, Bool-cases, Option-cases,
}
use criproxy.Text.{Text, text_eq, has_suffix, text_eq_iff}
use criproxy.Object.Matcher.{
  TypeMatcher, new_type_matcher, find, response_suffix, request_suffix, register_type,
  register_types, match_type,
}
use criproxy.Object.Matcher.Names.{
  append_cancel, versioned, IsVersion, base_name-versioned, has_suffix-append,
  append-take_of_has_suffix,
}

abbrev pub is_member : Text → List Text → Bool
is_member x [] = false
is_member x (b ∷ bs) = text_eq x b || is_member x bs

abbrev pub IsNamed : Text → Type 0
IsNamed base = base ≢ []

-- text_eq as a decision of equality
text_eq-false : (x y : Text) → x ≢ y → text_eq x y ≡ false
text_eq-false x y other = elim (Bool-cases (text_eq x y)) [
  | inl same ↦ absurd (other ((text_eq_iff x y).0 same))
  | inr e ↦ e
]

true-≢-false : true ≢ false
true-≢-false e = cc

text_eq-append : (x y z : Text) → text_eq (x ++ z) (y ++ z) ≡ text_eq x y
text_eq-append x y z = elim (Bool-cases (text_eq x y)) [
  | inl same ↦
      (text_eq_iff (x ++ z) (y ++ z)).1 (ap (λ t. t ++ z) ((text_eq_iff x y).0 same)) ∙ sym same
  | inr other ↦
      text_eq-false (x ++ z) (y ++ z)
        (λ e. absurd (true-≢-false (sym ((text_eq_iff x y).1 (append_cancel x y z e)) ∙ other)))
      ∙ sym other
]

-- The wrapper's type and the response's, for the request whose name begins with `y`.
abbrev pub matched : Text → List Text → Text → Option (Text × Option Text)
matched v bases y =
    if is_member (y ++ request_suffix) bases
    then some (
      versioned v (y ++ request_suffix),
      if is_member (y ++ response_suffix) bases
          then some (versioned v (y ++ response_suffix))
          else none,
    )
    else none

-- The newest of two entries, or the same value of the older one.
merged :
    (a b : Bool) (s t : Text) (rest : Option Text)
    → ((a ≡ true) → t ≡ s)
    → (if b then some s else (if a then some t else rest)) ≡ (if a || b then some s else rest)
merged true true s t rest h = refl
merged true false s t rest h = ap some (h refl)
merged false true s t rest h = refl
merged false false s t rest h = refl

abbrev paired : Option Text → Option Text → Option (Text × Option Text)
paired none response = none
paired (some target) response = some (target, response)

match_type-paired :
    (tm : TypeMatcher) (name : Text)
    → match_type tm name ≡ paired (find name tm.type_map) (find name tm.response_map)
unfolding match_type
match_type-paired tm name = elim (Option-cases (find name tm.type_map)) [
  | inl e ↦ rw (match_type, e) refl
  | inr (target, e) ↦ rw (match_type, e) refl
]

paired-if :
    (b : Bool) (target : Text) (response : Option Text)
    → paired (if b then some target else none) response
      ≡ (if b then some (target, response) else none)
paired-if true target response = refl
paired-if false target response = refl

module _ (v : Text) (version : IsVersion v) where
  register_first :
      (b : Text) (bs : List Text) (tm : TypeMatcher)
      → IsNamed b
      → register_types (map (versioned v) (b ∷ bs)) tm
        ≡ register_types (map (versioned v) bs) (register_type (versioned v b) b tm)
  unfolding register_types
  register_first b bs tm named =
      ap (λ base. register_types (map (versioned v) bs) (register_type (versioned v b) base tm))
        (base_name-versioned v b version named)

  find_type :
      (x : Text) (bases : List Text) (tm : TypeMatcher)
      → All IsNamed bases
      → find x (register_types (map (versioned v) bases) tm).type_map
        ≡ (if is_member x bases then some (versioned v x) else find x tm.type_map)
  unfolding register_types register_type find
  find_type x [] tm h = refl
  find_type x (b ∷ bs) tm (named, h) =
      rw
        (
          register_first b bs tm named,
          find_type x bs (register_type (versioned v b) b tm) h,
          register_type,
          find,
        )
        (merged (text_eq x b) (is_member x bs) (versioned v x) (versioned v b) _
          λ same. ap (versioned v) (sym ((text_eq_iff x b).0 same)))

  -- A registered type is the response of the request with the same beginning.
  find_one :
      (y b : Text) (tm : TypeMatcher)
      → find (y ++ request_suffix) (register_type (versioned v b) b tm).response_map ≡ (
          if text_eq (y ++ response_suffix) b
          then some (versioned v b)
          else find (y ++ request_suffix) tm.response_map)
  unfolding register_type find
  find_one y b tm = elim (Bool-cases (has_suffix b response_suffix)) [
    | inr other ↦
        let differs : text_eq (y ++ response_suffix) b ≡ false =
          text_eq-false (y ++ response_suffix) b λ e. absurd (
            true-≢-false (
              sym (has_suffix-append y response_suffix)
              ∙ (ap (λ t. has_suffix t response_suffix) e ∙ other))) in
        rw (other, differs) refl
    | inl ends ↦
        let z = take (length b - 8) b in
        let same : text_eq (y ++ request_suffix) (z ++ request_suffix)
            ≡ text_eq (y ++ response_suffix) b =
          text_eq-append y z request_suffix
          ∙ (sym (text_eq-append y z response_suffix)
              ∙ ap (text_eq (y ++ response_suffix))
                  (append-take_of_has_suffix b response_suffix ends)) in
        rw (ends, same) refl
  ]

  find_response :
      (y : Text) (bases : List Text) (tm : TypeMatcher)
      → All IsNamed bases
      → find (y ++ request_suffix) (register_types (map (versioned v) bases) tm).response_map ≡ (
          if is_member (y ++ response_suffix) bases
          then some (versioned v (y ++ response_suffix))
          else find (y ++ request_suffix) tm.response_map)
  unfolding register_types
  find_response y [] tm h = refl
  find_response y (b ∷ bs) tm (named, h) =
      rw
        (
          register_first b bs tm named,
          find_response y bs (register_type (versioned v b) b tm) h,
          find_one y b tm,
        )
        (merged (text_eq (y ++ response_suffix) b) (is_member (y ++ response_suffix) bs)
          (versioned v (y ++ response_suffix)) (versioned v b) _
          λ same. ap (versioned v) (sym ((text_eq_iff (y ++ response_suffix) b).0 same)))

  -- After the types of a version were registered under their base names, a request's message is
  -- matched exactly if its name is one of them: with the wrapper of that name, and the wrapper of
  -- the response with the same beginning, if that was registered too.
  pub match_type-registered :
      (bases : List Text) (y : Text)
      → All IsNamed bases
      → match_type (register_types (map (versioned v) bases) new_type_matcher) (y ++ request_suffix)
        ≡ matched v bases y
  unfolding find
  match_type-registered bases y h =
      match_type-paired registered (y ++ request_suffix)
      ∙ (ap (λ target. paired target (find (y ++ request_suffix) registered.response_map))
            (find_type (y ++ request_suffix) bases new_type_matcher h)
          ∙ (ap (paired _) (find_response y bases new_type_matcher h)
              ∙ paired-if (is_member (y ++ request_suffix) bases)
                  (versioned v (y ++ request_suffix)) _))
    where
      registered : TypeMatcher
      registered = register_types (map (versioned v) bases) new_type_matcher
