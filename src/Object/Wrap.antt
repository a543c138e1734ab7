-- ===== src/Object/Wrap.antt =====
-- Wrap of a response object with a raw message, in pkg/proxy/cri19.go and pkg/proxy/cri110.go.
use criproxy.Prelude.{ℕ, Option, none, some, if◌then◌else◌, ◌==◌}
use criproxy.Object.Requests.{
  Method, version, status, update_runtime_config, run_pod_sandbox, list_pod_sandbox,
  stop_pod_sandbox, remove_pod_sandbox, pod_sandbox_status, create_container, list_containers,
  list_container_stats, start_container, stop_container, remove_container, container_status,
  container_stats, update_container_resources, exec_sync, exec, attach, reopen_container_log,
  port_forward, list_images, image_status, pull_image, remove_image, image_fs_info,
}
use criproxy.Object.Responses.{Response, method_of_response}

-- The methods in the order of their declaration, to compare them.
unfoldable pub number : Method → ℕ
number version = 0
number status = 1
number update_runtime_config = 2
number run_pod_sandbox = 3
number list_pod_sandbox = 4
number stop_pod_sandbox = 5
number remove_pod_sandbox = 6
number pod_sandbox_status = 7
number create_container = 8
number list_containers = 9
number list_container_stats = 10
number start_container = 11
number stop_container = 12
number remove_container = 13
number container_status = 14
number container_stats = 15
number update_container_resources = 16
number exec_sync = 17
number exec = 18
number attach = 19
number reopen_container_log = 20
number port_forward = 21
number list_images = 22
number image_status = 23
number pull_image = 24
number remove_image = 25
number image_fs_info = 26

-- A raw message of another type than the wrapper's is a panic, none.
unfoldable pub wrap_response : Response → Response → Option Response
unfolding number method_of_response
wrap_response resp raw =
    if number (method_of_response resp) == number (method_of_response raw) then some raw else none
