-- ===== src/Object/Filters.antt =====
-- The filters of the list requests of pkg/proxy/cri19.go and pkg/proxy/cri110.go, which the
-- interfaces of pkg/proxy/criobject.go read and write.
pub mod Laws
use criproxy.Prelude.{Option, none, some, []}
use criproxy.Text.{Text}
use criproxy.Object.Sandboxes.{PodSandboxFilter}
use criproxy.Object.Containers.{ContainerFilter, ContainerStatsFilter}
use criproxy.Object.Images.{ImageFilter}
use criproxy.Object.Requests.{
  Request, list_pod_sandbox_request, list_containers_request, list_container_stats_request,
  list_images_request, get_image,
}

unfoldable pub pod_sandbox_filter_id : Option PodSandboxFilter → Text
pod_sandbox_filter_id none = []
pod_sandbox_filter_id (some f) = f.id

unfoldable pub set_pod_sandbox_filter_id : Text → Option PodSandboxFilter → PodSandboxFilter
set_pod_sandbox_filter_id id none = record { id = id; rest = [] }
set_pod_sandbox_filter_id id (some f) = record f { id = id }

unfoldable pub container_filter_id : Option ContainerFilter → Text
container_filter_id none = []
container_filter_id (some f) = f.id

unfoldable pub set_container_filter_id : Text → Option ContainerFilter → ContainerFilter
set_container_filter_id id none = record { id = id; pod_sandbox_id = []; rest = [] }
set_container_filter_id id (some f) = record f { id = id }

unfoldable pub container_filter_sandbox : Option ContainerFilter → Text
container_filter_sandbox none = []
container_filter_sandbox (some f) = f.pod_sandbox_id

-- Where there is no filter yet, the code writes the sandbox id to the field `Id`.
unfoldable pub set_container_filter_sandbox : Text → Option ContainerFilter → ContainerFilter
set_container_filter_sandbox id none = record { id = id; pod_sandbox_id = []; rest = [] }
set_container_filter_sandbox id (some f) = record f { pod_sandbox_id = id }

unfoldable pub container_stats_filter_id : Option ContainerStatsFilter → Text
container_stats_filter_id none = []
container_stats_filter_id (some f) = f.id

unfoldable pub set_container_stats_filter_id :
    Text → Option ContainerStatsFilter → ContainerStatsFilter
set_container_stats_filter_id id none = record { id = id; pod_sandbox_id = []; rest = [] }
set_container_stats_filter_id id (some f) = record f { id = id }

unfoldable pub container_stats_filter_sandbox : Option ContainerStatsFilter → Text
container_stats_filter_sandbox none = []
container_stats_filter_sandbox (some f) = f.pod_sandbox_id

-- Where there is no filter yet, the code writes the sandbox id to the field `Id`.
unfoldable pub set_container_stats_filter_sandbox :
    Text → Option ContainerStatsFilter → ContainerStatsFilter
set_container_stats_filter_sandbox id none = record { id = id; pod_sandbox_id = []; rest = [] }
set_container_stats_filter_sandbox id (some f) = record f { pod_sandbox_id = id }

unfoldable pub image_filter_image : Option ImageFilter → Text
unfolding get_image
image_filter_image none = []
image_filter_image (some f) = get_image f.image

unfoldable pub set_image_filter_image : Text → Option ImageFilter → ImageFilter
set_image_filter_image image none = record { image = some (record { image = image }) }
set_image_filter_image image (some f) = record f { image = some (record { image = image }) }

-- IdFilterObject
unfoldable pub id_filter? : Request → Option Text
unfolding pod_sandbox_filter_id container_filter_id container_stats_filter_id
id_filter? (list_pod_sandbox_request r) = some (pod_sandbox_filter_id r.filter)
id_filter? (list_containers_request r) = some (container_filter_id r.filter)
id_filter? (list_container_stats_request r) = some (container_stats_filter_id r.filter)
id_filter? _ = none

unfoldable pub set_id_filter : Text → Request → Request
unfolding set_pod_sandbox_filter_id set_container_filter_id set_container_stats_filter_id
set_id_filter id (list_pod_sandbox_request r) =
    list_pod_sandbox_request (record r { filter = some (set_pod_sandbox_filter_id id r.filter) })
set_id_filter id (list_containers_request r) =
    list_containers_request (record r { filter = some (set_container_filter_id id r.filter) })
set_id_filter id (list_container_stats_request r) =
    list_container_stats_request
      (record r { filter = some (set_container_stats_filter_id id r.filter) })
set_id_filter id r = r

-- PodSandboxIdFilterObject
unfoldable pub pod_sandbox_id_filter? : Request → Option Text
unfolding container_filter_sandbox container_stats_filter_sandbox
pod_sandbox_id_filter? (list_containers_request r) = some (container_filter_sandbox r.filter)
pod_sandbox_id_filter? (list_container_stats_request r) =
    some (container_stats_filter_sandbox r.filter)
pod_sandbox_id_filter? _ = none

unfoldable pub set_pod_sandbox_id_filter : Text → Request → Request
unfolding set_container_filter_sandbox set_container_stats_filter_sandbox
set_pod_sandbox_id_filter id (list_containers_request r) =
    list_containers_request (record r { filter = some (set_container_filter_sandbox id r.filter) })
set_pod_sandbox_id_filter id (list_container_stats_request r) =
    list_container_stats_request
      (record r { filter = some (set_container_stats_filter_sandbox id r.filter) })
set_pod_sandbox_id_filter id r = r

-- ImageFilterObject
unfoldable pub image_filter? : Request → Option Text
unfolding image_filter_image
image_filter? (list_images_request r) = some (image_filter_image r.filter)
image_filter? _ = none

unfoldable pub set_image_filter : Text → Request → Request
unfolding set_image_filter_image
set_image_filter image (list_images_request r) =
    list_images_request (record r { filter = some (set_image_filter_image image r.filter) })
set_image_filter image r = r
