-- ===== src/Prefix.antt =====
-- clientBase of pkg/proxy/apiclient.go: the prefixes that a client puts on the objects it lists.
-- `is_digest` is true where `digest.Parse` of github.com/opencontainers/go-digest gives no error.
pub mod Routes
use criproxy.Prelude.{
  ℕ, suc, zero, Bool, true, false, Option, none, some, List, [], ◌∷◌, map, if◌then◌else◌,
}
use criproxy.Text.{Text, codes, index}
use criproxy.Naming.{ClientBase, is_primary, image_name, augment_id}
use criproxy.Object.Items.{
  ImageSpec, PodSandbox, Container, ContainerStats, Image, container_stats_id,
  set_container_stats_id,
}
use criproxy.Object.Requests.{get_image}
use criproxy.Object.Responses.{
  Item, pod_sandbox, container, container_stats_item, image, filesystem_usage,
}

unfoldable pub prefix_sandbox : ClientBase → PodSandbox → PodSandbox
unfolding is_primary
prefix_sandbox c unprefixed =
    if is_primary c then unprefixed else record unprefixed { id = augment_id c unprefixed.id }

unfoldable pub prefix_container_stats : ClientBase → ContainerStats → ContainerStats
unfolding is_primary container_stats_id set_container_stats_id
prefix_container_stats c unprefixed =
    if is_primary c
    then unprefixed
    else set_container_stats_id (augment_id c (container_stats_id unprefixed)) unprefixed

-- A repo digest may or may not include the image name: it does if it has an `@` past its start.
unfoldable pub prefix_repo_digest : ClientBase → Text → Text
unfolding index
prefix_repo_digest c digest = elim (index digest (codes "@")) [
  | none ↦ digest
  | some zero ↦ digest
  | some (suc p) ↦ image_name c digest
]

module _ (is_digest : Text → Bool) where
  unfoldable pub prefix_container : ClientBase → Container → Container
  unfolding is_primary get_image
  prefix_container c unprefixed = if is_primary c then unprefixed else record unprefixed {
    id = augment_id c unprefixed.id;
    pod_sandbox_id = augment_id c unprefixed.pod_sandbox_id;
    image =
        if is_digest (get_image unprefixed.image)
        then unprefixed.image
        else some (record { image = image_name c (get_image unprefixed.image) });
  }

  unfoldable pub prefix_image : ClientBase → Image → Image
  unfolding is_primary prefix_repo_digest
  prefix_image c unprefixed = if is_primary c then unprefixed else record unprefixed {
    id = if is_digest unprefixed.id then unprefixed.id else image_name c unprefixed.id;
    repo_tags = map (image_name c) unprefixed.repo_tags;
    repo_digests = map (prefix_repo_digest c) unprefixed.repo_digests;
  }

  unfoldable pub add_prefix : ClientBase → Item → Item
  unfolding prefix_sandbox prefix_container prefix_container_stats prefix_image
  add_prefix c (pod_sandbox o) = pod_sandbox (prefix_sandbox c o)
  add_prefix c (container o) = container (prefix_container c o)
  add_prefix c (container_stats_item o) = container_stats_item (prefix_container_stats c o)
  add_prefix c (image o) = image (prefix_image c o)
  add_prefix c (filesystem_usage o) = filesystem_usage o
