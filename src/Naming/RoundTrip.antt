-- ===== src/Naming/RoundTrip.antt =====
-- Prefixing a name and matching the prefix undo one another.
use criproxy.Prelude.{
  ℕ, ◌+◌, ◌≡◌, sym, ap, ◌∙◌, ◌↔◌, true, some, ◌++◌, append_assoc, arith, length, length-append,
  drop, drop-length,
}
use mathlib.Core.Option.{some-injective}
use criproxy.Text.{Text, codes, has_prefix, has_prefix-append, append-drop_of_has_prefix}
use criproxy.Naming.{ClientBase, image_name, augment_id, id_prefix_matches, image_matches}

-- Cutting a separator's length off, for a separator of a known length.
module _ (c sep s : Text) (n : ℕ) (len : length c + n ≡ length (c ++ sep)) where
  drop-prefix : drop (length c + n) (c ++ (sep ++ s)) ≡ s
  drop-prefix = rw (len, ← append_assoc c sep s) (drop-length (c ++ sep) s)

  append-drop : has_prefix s (c ++ sep) ≡ true → s ≡ c ++ (sep ++ drop (length c + n) s)
  append-drop h = rw (len, ← append_assoc c sep) (sym (append-drop_of_has_prefix s (c ++ sep) h))

-- The two directions, over any separator.
module _ (c sep : Text) (n : ℕ) (len : length c + n ≡ length (c ++ sep)) where
  matched-eq-some :
      (s x : Text)
      → has_prefix s (c ++ sep) ≡ true
      → some (drop (length c + n) s) ≡ some x
      → s ≡ c ++ (sep ++ x)
  matched-eq-some s x h e =
      append-drop c sep s n len h ∙ ap (λ t. c ++ (sep ++ t)) (some-injective _ _ e)

  has_prefix_of_eq : (s x : Text) → s ≡ c ++ (sep ++ x) → has_prefix s (c ++ sep) ≡ true
  has_prefix_of_eq s x e = rw (e, ← append_assoc c sep x) (has_prefix-append (c ++ sep) x)

  drop_of_eq : (s x : Text) → s ≡ c ++ (sep ++ x) → drop (length c + n) s ≡ x
  drop_of_eq s x e = rw e (drop-prefix c sep x n len)

-- An id is matched by a client, and cut down to `x`, exactly when the client makes it of `x`.
pub id_prefix_matches_iff :
    (c : ClientBase) (id x : Text) → (id_prefix_matches c id ≡ some x) ↔ (id ≡ augment_id c x)
unfolding id_prefix_matches augment_id
id_prefix_matches_iff c id x =
    let len : length c.id + 2 ≡ length (c.id ++ codes "__") =
      omega (arith, length-append c.id (codes "__")) in
    ground (
      arith,
      matched-eq-some c.id (codes "__") 2 len id x,
      has_prefix_of_eq c.id (codes "__") 2 len id x,
      drop_of_eq c.id (codes "__") 2 len id x,
    )

-- An image name is matched by a client, and cut down to `x`, exactly when the client makes it of
-- `x`.
pub image_matches_iff :
    (c : ClientBase) (image x : Text) → (image_matches c image ≡ some x) ↔ (image ≡ image_name c x)
unfolding image_matches image_name
image_matches_iff c image x =
    let len : length c.id + 1 ≡ length (c.id ++ codes "/") =
      omega (arith, length-append c.id (codes "/")) in
    ground (
      arith,
      matched-eq-some c.id (codes "/") 1 len image x,
      has_prefix_of_eq c.id (codes "/") 1 len image x,
      drop_of_eq c.id (codes "/") 1 len image x,
    )
