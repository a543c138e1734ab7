-- ===== src/Object/Filters/Laws.antt =====
-- A filter that is set leaves the filters of the other kinds as they are.
use criproxy.Prelude.{◌≡◌, refl, none, some}
use criproxy.Text.{Text}
use criproxy.Object.Requests.{
  Request, list_pod_sandbox_request, list_containers_request, list_container_stats_request,
}
use criproxy.Object.Filters.{
  container_filter_sandbox, set_container_filter_id, container_stats_filter_sandbox,
  set_container_stats_filter_id, set_id_filter, pod_sandbox_id_filter?, set_pod_sandbox_id_filter,
  image_filter?,
}

container_filter_sandbox-set :
    (u : Text) (f : _)
    → container_filter_sandbox (some (set_container_filter_id u f)) ≡ container_filter_sandbox f
unfolding container_filter_sandbox set_container_filter_id
container_filter_sandbox-set u none = refl
container_filter_sandbox-set u (some f) = refl

container_stats_filter_sandbox-set :
    (u : Text) (f : _)
    → container_stats_filter_sandbox (some (set_container_stats_filter_id u f))
      ≡ container_stats_filter_sandbox f
unfolding container_stats_filter_sandbox set_container_stats_filter_id
container_stats_filter_sandbox-set u none = refl
container_stats_filter_sandbox-set u (some f) = refl

pub pod_sandbox_id_filter?-set_id_filter :
    (u : Text) (req : Request)
    → pod_sandbox_id_filter? (set_id_filter u req) ≡ pod_sandbox_id_filter? req
unfolding pod_sandbox_id_filter? set_id_filter
pod_sandbox_id_filter?-set_id_filter u (list_pod_sandbox_request r) = refl
pod_sandbox_id_filter?-set_id_filter u (list_containers_request r) =
    rw (container_filter_sandbox-set u r.filter) refl
pod_sandbox_id_filter?-set_id_filter u (list_container_stats_request r) =
    rw (container_stats_filter_sandbox-set u r.filter) refl
pod_sandbox_id_filter?-set_id_filter u _ = refl

pub image_filter?-set_id_filter :
    (u : Text) (req : Request) → image_filter? (set_id_filter u req) ≡ image_filter? req
unfolding image_filter? set_id_filter
image_filter?-set_id_filter u (list_pod_sandbox_request r) = refl
image_filter?-set_id_filter u (list_containers_request r) = refl
image_filter?-set_id_filter u (list_container_stats_request r) = refl
image_filter?-set_id_filter u _ = refl

pub image_filter?-set_pod_sandbox_id_filter :
    (u : Text) (req : Request) → image_filter? (set_pod_sandbox_id_filter u req) ≡ image_filter? req
unfolding image_filter? set_pod_sandbox_id_filter
image_filter?-set_pod_sandbox_id_filter u (list_containers_request r) = refl
image_filter?-set_pod_sandbox_id_filter u (list_container_stats_request r) = refl
image_filter?-set_pod_sandbox_id_filter u _ = refl
