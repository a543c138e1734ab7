-- ===== src/Object/Responses/Fits.antt =====
-- Items of the type that a list response holds.
use criproxy.Prelude.{◌≡◌, refl, Bool, Option, some, List, [], ◌∷◌, map, All, subst}
use mathlib.Core.Option.{some-injective}
use criproxy.Text.{Text}
use criproxy.Naming.{ClientBase}
use criproxy.Prefix.{add_prefix}
use criproxy.Object.Requests.{Method}
use criproxy.Object.Requests
use criproxy.Object.Responses.{
  Item, pod_sandbox, container, container_stats_item, image, filesystem_usage, Response,
  method_of_response, items?, cast_all, as_pod_sandbox, as_container, as_container_stats_item,
  as_image, as_filesystem_usage, set_items, list_pod_sandbox_response, list_containers_response,
  list_container_stats_response, list_images_response, image_fs_info_response,
}
use criproxy.Object.Responses.Items.{items?-set_items}

abbrev pub IsCast : {A : Type 0} → (Item → Option A) → Item → Type 0
IsCast {A} cast x = (a : A) × (cast x ≡ some a)

-- An item that the response of the method can hold.
abbrev pub FitsItem : Method → Item → Type 0
FitsItem Requests.list_pod_sandbox x = IsCast as_pod_sandbox x
FitsItem Requests.list_containers x = IsCast as_container x
FitsItem Requests.list_container_stats x = IsCast as_container_stats_item x
FitsItem Requests.list_images x = IsCast as_image x
FitsItem Requests.image_fs_info x = IsCast as_filesystem_usage x
FitsItem _ x = ⊥

abbrev pub Fits : Response → List Item → Type 0
Fits resp xs = All (FitsItem (method_of_response resp)) xs

module _ {A : Type 0} (cast : Item → Option A) where
  cast_all-IsCast :
      (xs : List Item) → All (IsCast cast) xs → (as' : List A) × (cast_all cast xs ≡ some as')
  unfolding cast_all
  cast_all-IsCast [] h = ([], refl)
  cast_all-IsCast (x ∷ xs) ((a, e), h) =
      let (as', f) = cast_all-IsCast xs h in (a ∷ as', rw (cast_all, e, f) refl)

set_here :
    (xs : List Item) (resp out : Response)
    → set_items xs resp ≡ some out
    → (out : Response) × (set_items xs resp ≡ some out) × (items? out ≡ some xs)
set_here xs resp out e = (out, e, items?-set_items xs resp out e)

-- Items that fit a list response can be set, and are there afterwards.
pub set_items-Fits :
    (xs : List Item) (resp emptied : Response)
    → set_items [] resp ≡ some emptied
    → Fits resp xs
    → (out : Response) × (set_items xs resp ≡ some out) × (items? out ≡ some xs)
unfolding set_items method_of_response
set_items-Fits xs (list_pod_sandbox_response r) emptied e h =
    let (as', f) = cast_all-IsCast as_pod_sandbox xs h in
    set_here xs (list_pod_sandbox_response r) (list_pod_sandbox_response (record r { items = as' }))
      (rw (set_items, f) refl)
set_items-Fits xs (list_containers_response r) emptied e h =
    let (as', f) = cast_all-IsCast as_container xs h in
    set_here xs (list_containers_response r)
      (list_containers_response (record r { containers = as' })) (rw (set_items, f) refl)
set_items-Fits xs (list_container_stats_response r) emptied e h =
    let (as', f) = cast_all-IsCast as_container_stats_item xs h in
    set_here xs (list_container_stats_response r)
      (list_container_stats_response (record r { stats = as' })) (rw (set_items, f) refl)
set_items-Fits xs (list_images_response r) emptied e h =
    let (as', f) = cast_all-IsCast as_image xs h in
    set_here xs (list_images_response r) (list_images_response (record r { images = as' }))
      (rw (set_items, f) refl)
set_items-Fits xs (image_fs_info_response r) emptied e h =
    let (as', f) = cast_all-IsCast as_filesystem_usage xs h in
    set_here xs (image_fs_info_response r)
      (image_fs_info_response (record r { image_filesystems = as' })) (rw (set_items, f) refl)
set_items-Fits xs _ emptied e h = cc

map-Fits :
    {A : Type 0} (cast : Item → Option A) (item : A → Item) (change : Item → Item) (xs : List A)
    → ((a : A) → IsCast cast (change (item a)))
    → All (IsCast cast) (map change (map item xs))
map-Fits cast item change [] h = tt
map-Fits cast item change (x ∷ xs) h = (h x, map-Fits cast item change xs h)

-- The items of a list response fit it when they have a client's prefix.
pub add_prefix-Fits :
    (is_digest : Text → Bool) (c : ClientBase) (resp : Response) (xs : List Item)
    → items? resp ≡ some xs
    → Fits resp (map (add_prefix is_digest c) xs)
unfolding items? method_of_response add_prefix
add_prefix-Fits is_digest c (list_pod_sandbox_response r) xs e =
    subst (λ l. All (IsCast as_pod_sandbox) (map (add_prefix is_digest c) l))
      (some-injective _ xs e)
      (map-Fits as_pod_sandbox pod_sandbox (add_prefix is_digest c) r.items λ a. (_, refl))
add_prefix-Fits is_digest c (list_containers_response r) xs e =
    subst (λ l. All (IsCast as_container) (map (add_prefix is_digest c) l)) (some-injective _ xs e)
      (map-Fits as_container container (add_prefix is_digest c) r.containers λ a. (_, refl))
add_prefix-Fits is_digest c (list_container_stats_response r) xs e =
    subst (λ l. All (IsCast as_container_stats_item) (map (add_prefix is_digest c) l))
      (some-injective _ xs e)
      (map-Fits as_container_stats_item container_stats_item (add_prefix is_digest c) r.stats
        λ a. (_, refl))
add_prefix-Fits is_digest c (list_images_response r) xs e =
    subst (λ l. All (IsCast as_image) (map (add_prefix is_digest c) l)) (some-injective _ xs e)
      (map-Fits as_image image (add_prefix is_digest c) r.images λ a. (_, refl))
add_prefix-Fits is_digest c (image_fs_info_response r) xs e =
    subst (λ l. All (IsCast as_filesystem_usage) (map (add_prefix is_digest c) l))
      (some-injective _ xs e)
      (map-Fits as_filesystem_usage filesystem_usage (add_prefix is_digest c) r.image_filesystems
        λ a. (_, refl))
add_prefix-Fits is_digest c _ xs e = cc

-- A response whose items can be set has items.
pub has_items :
    (resp emptied : Response)
    → set_items [] resp ≡ some emptied
    → (xs : List Item) × (items? resp ≡ some xs)
unfolding set_items items?
has_items (list_pod_sandbox_response r) emptied e = (_, refl)
has_items (list_containers_response r) emptied e = (_, refl)
has_items (list_container_stats_response r) emptied e = (_, refl)
has_items (list_images_response r) emptied e = (_, refl)
has_items (image_fs_info_response r) emptied e = (_, refl)
has_items _ emptied e = cc
