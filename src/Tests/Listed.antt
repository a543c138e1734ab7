-- ===== src/Tests/Listed.antt =====
-- A listing of the sandboxes of three runtimes, of which one is not up.
use criproxy.Prelude.{
  true, false, ◌≡◌, refl, none, some, List, [], ◌∷◌, ◌++◌, if◌then◌else◌, ◌==◌, All,
}
use criproxy.Text.{Text, codes}
use criproxy.Errors.{not_connected}
use criproxy.Naming.{is_primary, augment_id}
use criproxy.Prefix.{prefix_sandbox, add_prefix}
use criproxy.Connection.{new_client_connection}
use criproxy.Object.Items.{PodSandbox}
use criproxy.Object.Requests.{
  get_image, list_images, list_images_request, Request, list_containers, list_containers_request,
  list_pod_sandbox, list_pod_sandbox_request,
}
use criproxy.Object.Filters.{
  id_filter?, set_id_filter, pod_sandbox_id_filter?, set_pod_sandbox_id_filter, image_filter?,
  set_image_filter, image_filter_image, set_image_filter_image, container_filter_id,
  set_container_filter_id, container_filter_sandbox, set_container_filter_sandbox,
}
use criproxy.Object.Responses.{
  Item, pod_sandbox, Response, new_response, list_pod_sandbox_response, items?, set_items, cast_all,
}
use criproxy.Proxy.World.{cri112, Slot, Call, ok}
use criproxy.Proxy.Quiet.{quiet}
use criproxy.Proxy.Client.{Env}
use criproxy.Proxy.Client.Quiet.{IsAsked}
use criproxy.Proxy.Routing.{RuntimeProxy, clients}
use criproxy.Proxy.Handlers.Listing.{list_objects}
use criproxy.Proxy.Handlers.Listing.Exact.{Outcome, offline, asked, slots_after, listed}
use criproxy.Proxy.Handlers.Listing.Whole.{list_objects-Exact}
use criproxy.Proxy.Client.Calls.{IsSent}
use criproxy.Proxy.Logic.{Reads}
use criproxy.Proxy.Logic.Makes.{Makes}
use criproxy.Proxy.Handlers.Listing.Targets.{by_both, by_image}
use criproxy.Proxy.Handlers.Listing.Filtered.{IsOf, list_objects-IsFor, list_objects-apart}
use criproxy.Tests.Names.{names}
use criproxy.Tests.Fixture
use criproxy.Tests.Fixture.{primary_client_base, alt, slot}
use criproxy.Tests.Requests.{method}

abbrev pub three_runtimes : RuntimeProxy
three_runtimes = record {
  cri_version = cri112;
  primary = primary_client_base;
  others = alt ∷ record { id = codes "off" } ∷ [];
}

abbrev pub slots : List Slot
slots =
    slot (codes "/run/docker")
    ∷ slot (codes "/run/alt")
    ∷ record { connection = new_client_connection (codes "/run/off"); next = none }
    ∷ []

abbrev list_req : Request
list_req = list_pod_sandbox_request (record { filter = none })

abbrev one_sandbox : Text → PodSandbox
one_sandbox id = record { id = id; rest = [] }

abbrev listing_of : Text → Response
listing_of id = list_pod_sandbox_response (record { items = one_sandbox id ∷ [] })

-- The other runtime fails after it filled in the response.
abbrev env : Env
env = record Fixture.env {
  serve = λ log call resp.
      if call.client == 0
      then (listing_of (codes "a"), none)
      else (listing_of (codes "b"), some not_connected);
}

abbrev outcomes : List Outcome
outcomes =
    asked (listing_of (codes "a")) (pod_sandbox (one_sandbox (codes "a")) ∷ []) none
    ∷ asked (listing_of (codes "b")) (pod_sandbox (one_sandbox (codes "b")) ∷ [])
        (some not_connected)
    ∷ offline
    ∷ []

listed_test :
    listed env.is_digest (clients three_runtimes) outcomes
    ≡ pod_sandbox (one_sandbox (codes "a")) ∷ pod_sandbox (one_sandbox (codes "alt__b")) ∷ []
unfolding add_prefix prefix_sandbox is_primary augment_id
listed_test = refl

list_objects-Exact_example :
    (out : Response) × (new : List Call) × (list_objects env three_runtimes method list_req
        (new_response list_pod_sandbox)
        (quiet slots [])
      ≡ (ok out, quiet (slots_after outcomes slots) (new ++ [])))
    × (items? out ≡ some (listed env.is_digest (clients three_runtimes) outcomes))
    × IsAsked env method list_req 0 (true ∷ true ∷ false ∷ []) new
unfolding new_response set_items cast_all id_filter? pod_sandbox_id_filter? image_filter? items?
    new_client_connection
list_objects-Exact_example =
    list_objects-Exact env method list_req (new_response list_pod_sandbox)
      (list_pod_sandbox_response (record { items = [] })) refl three_runtimes slots outcomes []
      (refl, refl, refl)
      (
        (_, refl, refl, (λ log. refl), refl, refl),
        ((_, refl, refl, (λ log. refl), refl, refl), (refl, tt)),
      )

-- Filters of a container's id and of its sandbox's.
abbrev filtered_by : Text → Text → Request
filtered_by id sandbox =
    list_containers_request
      (record { filter = some (record { id = id; pod_sandbox_id = sandbox; rest = [] }) })

list_objects-IsFor_example :
    Makes
      (IsSent env 1 method (filtered_by (codes "c1") (codes "s1")))
      (λ out. (items : List Item) × (items? out ≡ some items) × All (IsOf env alt) items)
      (list_objects env three_runtimes method
        (filtered_by (codes "alt__c1") (codes "alt__s1"))
        (new_response list_containers))
unfolding names id_filter? set_id_filter pod_sandbox_id_filter? set_pod_sandbox_id_filter
    image_filter? container_filter_id set_container_filter_id container_filter_sandbox
    set_container_filter_sandbox
list_objects-IsFor_example =
    list_objects-IsFor env alt method 1 (filtered_by (codes "c1") (codes "s1")) three_runtimes
      (filtered_by (codes "alt__c1") (codes "alt__s1")) (new_response list_containers)
      (by_both (codes "alt__c1") (codes "alt__s1") refl refl refl refl) refl

-- A filter of an image.
abbrev images_of : Text → Request
images_of image =
    list_images_request
      (record { filter = some (record { image = some (record { image = image }) }) })

images_test :
    Makes
      (IsSent env 1 method (images_of (codes "nginx")))
      (λ out. (items : List Item) × (items? out ≡ some items) × All (IsOf env alt) items)
      (list_objects env three_runtimes method
        (images_of (codes "alt/nginx"))
        (new_response list_images))
unfolding names id_filter? pod_sandbox_id_filter? image_filter? set_image_filter image_filter_image
    set_image_filter_image get_image
images_test =
    list_objects-IsFor env alt method 1 (images_of (codes "nginx")) three_runtimes
      (images_of (codes "alt/nginx")) (new_response list_images)
      (by_image (codes "alt/nginx") refl refl refl) refl

list_objects-apart_example :
    Reads
      (λ out. (out ≡ new_response list_containers) × (items? out ≡ some []))
      (list_objects env three_runtimes method
        (filtered_by (codes "alt__c1") (codes "s1"))
        (new_response list_containers))
unfolding names id_filter? pod_sandbox_id_filter? container_filter_id container_filter_sandbox
    set_items cast_all new_response
list_objects-apart_example =
    list_objects-apart env three_runtimes method (filtered_by (codes "alt__c1") (codes "s1"))
      (new_response list_containers) (new_response list_containers) (codes "alt__c1") (codes "s1")
      refl refl (λ e. cc) refl
