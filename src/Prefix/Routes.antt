-- ===== src/Prefix/Routes.antt =====
-- The names that a client puts on what it lists are those it matches in requests.
use criproxy.Prelude.{
  ℕ, suc, ◌≡◌, refl, ◌⊎◌, inl, inr, Bool, true, some, List, [], ◌∷◌, map, arith, Bool-cases,
}
use criproxy.Text.{Text, codes, index}
use criproxy.Naming.{
  ClientBase, is_primary, image_name, augment_id, id_prefix_matches, image_matches,
}
use criproxy.Naming.RoundTrip.{id_prefix_matches_iff, image_matches_iff}
use criproxy.Object.Items.{PodSandbox, Container, ContainerStats, Image, container_stats_id}
use criproxy.Object.Requests.{get_image}
use criproxy.Prefix.{
  prefix_sandbox, prefix_container_stats, prefix_container, prefix_image, prefix_repo_digest,
}

-- What a client makes of an id, it matches and cuts down to that id.
pub id_prefix_matches-augment_id :
    (c : ClientBase) (x : Text) → id_prefix_matches c (augment_id c x) ≡ some x
id_prefix_matches-augment_id c x = (id_prefix_matches_iff c (augment_id c x) x).1 refl

pub image_matches-image_name :
    (c : ClientBase) (x : Text) → image_matches c (image_name c x) ≡ some x
image_matches-image_name c x = (image_matches_iff c (image_name c x) x).1 refl

id_prefix_matches_primary :
    (c : ClientBase) (x : Text) → is_primary c ≡ true → id_prefix_matches c x ≡ some x
unfolding id_prefix_matches
id_prefix_matches_primary c x h = rw h

image_matches_primary :
    (c : ClientBase) (x : Text) → is_primary c ≡ true → image_matches c x ≡ some x
unfolding image_matches
image_matches_primary c x h = rw h

-- A listed sandbox keeps its other fields, and its id is matched by the client that listed it.
pub prefix_sandbox-routes :
    (c : ClientBase) (s : PodSandbox)
    → (id_prefix_matches c (prefix_sandbox c s).id ≡ some s.id)
      × ((prefix_sandbox c s).rest ≡ s.rest)
unfolding prefix_sandbox
prefix_sandbox-routes c s =
    ground (arith, id_prefix_matches-augment_id c s.id, id_prefix_matches_primary c s.id)

-- Listed container statistics keep their other fields, and their container's id is matched by the
-- client that listed them.
pub prefix_container_stats-routes :
    (c : ClientBase) (s : ContainerStats)
    → (id_prefix_matches c (container_stats_id (prefix_container_stats c s))
        ≡ some (container_stats_id s))
      × ((prefix_container_stats c s).rest ≡ s.rest)
unfolding prefix_container_stats container_stats_id
prefix_container_stats-routes c s = ground (
  arith,
  id_prefix_matches-augment_id c (container_stats_id s),
  id_prefix_matches_primary c (container_stats_id s),
)

module _ (is_digest : Text → Bool) where
  -- A listed container keeps its other fields; the client that listed it matches its id, its
  -- sandbox's id and its image, unless that is a digest, which stays as it is.
  pub prefix_container-routes :
      (c : ClientBase) (o : Container)
      → (id_prefix_matches c (prefix_container is_digest c o).id ≡ some o.id)
        × (id_prefix_matches c (prefix_container is_digest c o).pod_sandbox_id
            ≡ some o.pod_sandbox_id)
        × ((is_digest (get_image o.image) ≡ true)
              × ((prefix_container is_digest c o).image ≡ o.image)
            ⊎ (image_matches c (get_image (prefix_container is_digest c o).image)
                ≡ some (get_image o.image)))
        × ((prefix_container is_digest c o).rest ≡ o.rest)
  unfolding prefix_container get_image
  prefix_container-routes c o = ground (
    arith,
    id_prefix_matches-augment_id c o.id,
    id_prefix_matches-augment_id c o.pod_sandbox_id,
    image_matches-image_name c (get_image o.image),
    id_prefix_matches_primary c o.id,
    id_prefix_matches_primary c o.pod_sandbox_id,
    image_matches_primary c (get_image o.image),
  )

-- The text has an `@` past its start.
abbrev pub HasName : Text → Type 0
HasName d = (p : ℕ) × (index d (codes "@") ≡ some (suc p))

-- A repo digest stays as it is, or carries a name that the client matches.
abbrev pub RepoDigestRoutes : ClientBase → List Text → List Text → Type 0
RepoDigestRoutes c [] [] = Unit
RepoDigestRoutes c (d ∷ ds) (e ∷ es) =
    ((e ≡ d) ⊎ ((HasName d) × (image_matches c e ≡ some d))) × RepoDigestRoutes c ds es
RepoDigestRoutes c _ _ = ⊥

repo_digest_routes :
    (c : ClientBase) (d : Text)
    → (prefix_repo_digest c d ≡ d)
      ⊎ (HasName d × (image_matches c (prefix_repo_digest c d) ≡ some d))
unfolding prefix_repo_digest
repo_digest_routes c d = ground (arith, image_matches-image_name c d)

repo_digests_unchanged : (c : ClientBase) (ds : List Text) → RepoDigestRoutes c ds ds
repo_digests_unchanged c [] = tt
repo_digests_unchanged c (d ∷ ds) = (inl refl, repo_digests_unchanged c ds)

repo_digests_routes :
    (c : ClientBase) (ds : List Text) → RepoDigestRoutes c ds (map (prefix_repo_digest c) ds)
repo_digests_routes c [] = tt
repo_digests_routes c (d ∷ ds) = (repo_digest_routes c d, repo_digests_routes c ds)

repo_tags_primary :
    (c : ClientBase) (ts : List Text) → is_primary c ≡ true → map (image_matches c) ts ≡ map some ts
repo_tags_primary c [] h = refl
repo_tags_primary c (t ∷ ts) h =
    ground (arith, image_matches_primary c t h, repo_tags_primary c ts h)

repo_tags_prefixed :
    (c : ClientBase) (ts : List Text) → map (image_matches c) (map (image_name c) ts) ≡ map some ts
repo_tags_prefixed c [] = refl
repo_tags_prefixed c (t ∷ ts) =
    ground (arith, image_matches-image_name c t, repo_tags_prefixed c ts)

module _ (is_digest : Text → Bool) where
  -- A listed image keeps its other fields; the client that listed it matches its id, unless that
  -- is a digest, which stays as it is, and matches every tag. A repo digest is matched too, or
  -- stays as it is.
  pub prefix_image-routes :
      (c : ClientBase) (o : Image)
      → ((is_digest o.id ≡ true) × ((prefix_image is_digest c o).id ≡ o.id)
          ⊎ (image_matches c (prefix_image is_digest c o).id ≡ some o.id))
        × (map (image_matches c) (prefix_image is_digest c o).repo_tags ≡ map some o.repo_tags)
        × RepoDigestRoutes c o.repo_digests (prefix_image is_digest c o).repo_digests
        × ((prefix_image is_digest c o).rest ≡ o.rest)
  unfolding prefix_image
  prefix_image-routes c o = elim (Bool-cases (is_primary c)) [
    | inl p ↦
        rw (p, prefix_image)
          (
            inr (image_matches_primary c o.id p),
            repo_tags_primary c o.repo_tags p,
            repo_digests_unchanged c o.repo_digests,
            refl,
          )
    | inr n ↦
        rw (n, prefix_image)
          (
            ground (arith, image_matches-image_name c o.id),
            repo_tags_prefixed c o.repo_tags,
            repo_digests_routes c o.repo_digests,
            refl,
          )
  ]
