-- ===== src/Naming/Separation.antt =====
-- Ids with no separator in them keep the names of different clients apart.
use criproxy.Prelude.{ℕ, ◌≡◌, sym, ◌∙◌, ◌≢◌, false, some, [], ◌∷◌, ◌++◌, arith, All}
use criproxy.Text.{Text, codes}
use criproxy.Naming.{
  ClientBase, is_primary, image_name, augment_id, id_prefix_matches, image_matches,
}
use criproxy.Naming.RoundTrip.{id_prefix_matches_iff, image_matches_iff}

-- The byte does not occur in the text.
abbrev pub IsFree : ℕ → Text → Type 0
IsFree b s = All (λ c. c ≢ b) s

-- A text is cut at the first occurrence of a byte in one way only.
pub split_unique :
    (b : ℕ) (c d x y : Text)
    → IsFree b c
    → IsFree b d
    → c ++ (b ∷ x) ≡ d ++ (b ∷ y)
    → (c ≡ d) × (x ≡ y)
split_unique b [] [] x y fc fd e = ground arith
split_unique b [] (k ∷ d) x y fc fd e = ground arith
split_unique b (k ∷ c) [] x y fc fd e = ground arith
split_unique b (k ∷ c) (l ∷ d) x y fc fd e = ground (arith, split_unique b c d x y fc.1 fd.1)

augment_id_eq :
    (c : ClientBase) (x : Text) → is_primary c ≡ false → augment_id c x ≡ c.id ++ (codes "__" ++ x)
unfolding augment_id
augment_id_eq c x h = rw h

image_name_eq :
    (c : ClientBase) (x : Text) → is_primary c ≡ false → image_name c x ≡ c.id ++ (codes "/" ++ x)
unfolding image_name
image_name_eq c x h = rw h

module _ (c d : ClientBase) (x y : Text) (nc : is_primary c ≡ false)
    (nd : is_primary d ≡ false) where
  -- Of two clients that are not primary and whose ids are free of `_`, one matches an id that the
  -- other one made only if their ids are equal; it cuts it down to what the other was given.
  pub id_prefix_matches-augment_id_unique :
      IsFree b'_' c.id
      → IsFree b'_' d.id
      → id_prefix_matches d (augment_id c x) ≡ some y
      → (c.id ≡ d.id) × (x ≡ y)
  id_prefix_matches-augment_id_unique fc fd h =
      let e = (id_prefix_matches_iff d (augment_id c x) y).0 h in
      let e' = sym (augment_id_eq c x nc) ∙ (e ∙ augment_id_eq d y nd) in
      ground (arith, split_unique b'_' c.id d.id (b'_' ∷ x) (b'_' ∷ y) fc fd e')

  -- The same for image names and ids free of `/`.
  pub image_matches-image_name_unique :
      IsFree b'/' c.id
      → IsFree b'/' d.id
      → image_matches d (image_name c x) ≡ some y
      → (c.id ≡ d.id) × (x ≡ y)
  image_matches-image_name_unique fc fd h =
      let e = (image_matches_iff d (image_name c x) y).0 h in
      let e' = sym (image_name_eq c x nc) ∙ (e ∙ image_name_eq d y nd) in
      split_unique b'/' c.id d.id x y fc fd e'
