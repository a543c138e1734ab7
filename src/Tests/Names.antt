-- ===== src/Tests/Names.antt =====
-- Names, prefixes and routes.
use criproxy.Prelude.{◌≡◌, refl, ◌↔◌, ◌⊎◌, true, Option, none, some, [], ◌∷◌, map, arith}
use criproxy.Text.{codes, has_prefix, text_eq}
use criproxy.Naming.{
  ClientBase, is_primary, id_prefix_matches, augment_id, image_matches, image_name,
}
use criproxy.Naming.RoundTrip.{id_prefix_matches_iff, image_matches_iff}
use criproxy.Object.Items.{Container, Image}
use criproxy.Object.Requests.{get_image}
use criproxy.Prefix.{prefix_container, prefix_image}
use criproxy.Prefix.Routes.{prefix_container-routes, prefix_image-routes, RepoDigestRoutes}
use criproxy.Proxy.Routing.Route.{route_id, route_image, route_from}
use criproxy.Proxy.Routing.Places.{
  IsWellFormed, route_id_sound, route_id-augment_id, route_image-image_name,
}
use criproxy.Tests.Fixture.{alt, two_runtimes, env}

unfoldable pub names : Unit {0}
unfolding is_primary id_prefix_matches augment_id image_matches image_name has_prefix text_eq
    route_from
names = tt

match_test : id_prefix_matches alt (codes "alt__c1") ≡ some (codes "c1")
unfolding names
match_test = refl

no_match_test : id_prefix_matches alt (codes "alt_c1") ≡ none
unfolding names
no_match_test = refl

route_test : route_image two_runtimes (codes "alt/busybox") ≡ (1, codes "busybox")
unfolding names
route_test = refl

id_prefix_matches_iff_test :
    (id_prefix_matches alt (codes "alt__c1") ≡ some (codes "c1"))
    ↔ (codes "alt__c1" ≡ augment_id alt (codes "c1"))
id_prefix_matches_iff_test = id_prefix_matches_iff alt (codes "alt__c1") (codes "c1")

image_matches_iff_test :
    (image_matches alt (codes "alt/nginx") ≡ some (codes "nginx"))
    ↔ (codes "alt/nginx" ≡ image_name alt (codes "nginx"))
image_matches_iff_test = image_matches_iff alt (codes "alt/nginx") (codes "nginx")

pub well_formed : IsWellFormed two_runtimes
unfolding is_primary text_eq
well_formed = record {
  primary = refl;
  others = ((refl, omega arith, omega arith), tt);
  distinct = (tt, tt);
}

abbrev a_container : Container
a_container = record {
  id = codes "c1";
  pod_sandbox_id = codes "s1";
  image = some (record { image = codes "nginx" });
  rest = [];
}

abbrev pub an_image : Image
an_image = record {
  id = codes "sha256:ab";
  repo_tags = codes "nginx:1" ∷ [];
  repo_digests = codes "nginx@sha256:ab" ∷ [];
  rest = [];
}

prefix_container-routes_example :
    (id_prefix_matches alt (prefix_container env.is_digest alt a_container).id ≡ some (codes "c1"))
    × (id_prefix_matches alt (prefix_container env.is_digest alt a_container).pod_sandbox_id
        ≡ some (codes "s1"))
    × ((env.is_digest (get_image a_container.image) ≡ true)
          × ((prefix_container env.is_digest alt a_container).image ≡ a_container.image)
        ⊎ (image_matches alt (get_image (prefix_container env.is_digest alt a_container).image)
            ≡ some (get_image a_container.image)))
    × ((prefix_container env.is_digest alt a_container).rest ≡ [])
prefix_container-routes_example = prefix_container-routes env.is_digest alt a_container

prefix_image-routes_example :
    ((env.is_digest an_image.id ≡ true)
        × ((prefix_image env.is_digest alt an_image).id ≡ an_image.id)
      ⊎ (image_matches alt (prefix_image env.is_digest alt an_image).id ≡ some an_image.id))
    × (map (image_matches alt) (prefix_image env.is_digest alt an_image).repo_tags
        ≡ map some an_image.repo_tags)
    × RepoDigestRoutes alt an_image.repo_digests
        (prefix_image env.is_digest alt an_image).repo_digests
    × ((prefix_image env.is_digest alt an_image).rest ≡ [])
prefix_image-routes_example = prefix_image-routes env.is_digest alt an_image

route_id_sound_test :
    (c : ClientBase) × (Path (Option ClientBase) (some alt) (some c))
    × (augment_id c (route_id two_runtimes (codes "alt__c1")).1 ≡ codes "alt__c1")
unfolding names
route_id_sound_test = route_id_sound two_runtimes (codes "alt__c1") refl

route_id-augment_id_example : route_id two_runtimes (augment_id alt (codes "c1")) ≡ (1, codes "c1")
route_id-augment_id_example = route_id-augment_id two_runtimes well_formed 0 alt refl (codes "c1")

route_image-image_name_example :
    route_image two_runtimes (image_name alt (codes "nginx")) ≡ (1, codes "nginx")
route_image-image_name_example =
    route_image-image_name two_runtimes well_formed 0 alt refl (codes "nginx")
