-- ===== src/Object/Responses/Items.antt =====
-- Items after SetItems.
use criproxy.Prelude.{◌≡◌, sym, ap, Option, some, List, [], ◌∷◌, map, inl, inr, Option-cases, arith}
use mathlib.Core.Option.{some-injective}
use criproxy.Object.Responses.{
  Item, pod_sandbox, container, container_stats_item, image, filesystem_usage, Response, items?,
  cast_all, as_pod_sandbox, as_container, as_container_stats_item, as_image, as_filesystem_usage,
  set_items, list_pod_sandbox_response, list_containers_response, list_container_stats_response,
  list_images_response, image_fs_info_response,
}

module _ {A : Type 0} (cast : Item → Option A) (item : A → Item)
    (only : (x : Item) (a : A) → cast x ≡ some a → item a ≡ x) where
  map-cast_all : (xs : List Item) (as' : List A) → cast_all cast xs ≡ some as' → map item as' ≡ xs
  unfolding cast_all
  map-cast_all [] as' e = ground arith
  map-cast_all (x ∷ xs) as' e = elim (Option-cases (cast x)) [
    | inl n ↦ ground arith
    | inr (a, s) ↦ elim (Option-cases (cast_all cast xs)) [
      | inl n ↦ ground arith
      | inr (rest, t) ↦ ground (arith, only x a s, map-cast_all xs rest t)
    ]
  ]

pod_sandbox_only : (x : Item) (a : _) → as_pod_sandbox x ≡ some a → pod_sandbox a ≡ x
pod_sandbox_only (pod_sandbox y) a e = ap pod_sandbox (sym (some-injective y a e))
pod_sandbox_only _ a e = cc

container_only : (x : Item) (a : _) → as_container x ≡ some a → container a ≡ x
container_only (container y) a e = ap container (sym (some-injective y a e))
container_only _ a e = cc

container_stats_only :
    (x : Item) (a : _) → as_container_stats_item x ≡ some a → container_stats_item a ≡ x
container_stats_only (container_stats_item y) a e =
    ap container_stats_item (sym (some-injective y a e))
container_stats_only _ a e = cc

image_only : (x : Item) (a : _) → as_image x ≡ some a → image a ≡ x
image_only (image y) a e = ap image (sym (some-injective y a e))
image_only _ a e = cc

filesystem_usage_only : (x : Item) (a : _) → as_filesystem_usage x ≡ some a → filesystem_usage a ≡ x
filesystem_usage_only (filesystem_usage y) a e = ap filesystem_usage (sym (some-injective y a e))
filesystem_usage_only _ a e = cc

-- A response whose items could be set has these items, in their order.
pub items?-set_items :
    (items : List Item) (resp out : Response)
    → set_items items resp ≡ some out
    → items? out ≡ some items
unfolding set_items items?
items?-set_items items (list_pod_sandbox_response r) out e =
    elim (Option-cases (cast_all as_pod_sandbox items)) [
      | inl n ↦ ground arith
      | inr (xs, h) ↦
          ground (arith, map-cast_all as_pod_sandbox pod_sandbox pod_sandbox_only items xs h)
    ]
items?-set_items items (list_containers_response r) out e =
    elim (Option-cases (cast_all as_container items)) [
      | inl n ↦ ground arith
      | inr (xs, h) ↦ ground (arith, map-cast_all as_container container container_only items xs h)
    ]
items?-set_items items (list_container_stats_response r) out e =
    elim (Option-cases (cast_all as_container_stats_item items)) [
      | inl n ↦ ground arith
      | inr (xs, h) ↦ ground (
        arith,
        map-cast_all as_container_stats_item container_stats_item container_stats_only items xs h,
      )
    ]
items?-set_items items (list_images_response r) out e =
    elim (Option-cases (cast_all as_image items)) [
      | inl n ↦ ground arith
      | inr (xs, h) ↦ ground (arith, map-cast_all as_image image image_only items xs h)
    ]
items?-set_items items (image_fs_info_response r) out e =
    elim (Option-cases (cast_all as_filesystem_usage items)) [
      | inl n ↦ ground arith
      | inr (xs, h) ↦ ground (
        arith,
        map-cast_all as_filesystem_usage filesystem_usage filesystem_usage_only items xs h,
      )
    ]
items?-set_items items _ out e = cc
