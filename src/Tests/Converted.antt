-- ===== src/Tests/Converted.antt =====
-- Requests of both versions that are converted, and types that are matched.
use criproxy.Prelude.{pos, ◌≡◌, ◌≢◌, refl, true, false, none, some, List, [], ◌∷◌, ◌++◌, ◌↔◌, map}
use criproxy.Text.{Text, codes, text_eq, last_index, has_prefix, has_suffix}
use criproxy.Conversion.Messages.{
  PodSandboxConfig19, RunPodSandboxRequest19, RunPodSandboxRequest112, CreateContainerRequest19,
  ContainerConfig19,
}
use criproxy.Conversion.Upgrade.{upgrade_run_pod_sandbox_request, upgrade_create_container_request}
use criproxy.Conversion.Downgrade.{
  downgrade_run_pod_sandbox_request, downgrade_create_container_request,
}
use criproxy.Conversion.RoundTrip.{
  downgrade_run_pod_sandbox_request-upgrade, downgrade_create_container_request-upgrade,
}
use criproxy.Conversion.Loss.{RunRequestIsOld, run_pod_sandbox_request_iff}
use criproxy.Conversion.Loss.Container.{CreateRequestIsOld, create_container_request_iff}
use criproxy.Object.Matcher.{
  new_type_matcher, find, base_name, request_suffix, register_type, register_types, match_type,
}
use criproxy.Object.Matcher.Names.{versioned}
use criproxy.Object.Matcher.Registered.{matched, match_type-registered}
use criproxy.Object.Requests.{method_of}
use criproxy.Proxy.World.{cri19}
use criproxy.Proxy.Dispatch.{wrap_object}
use criproxy.Proxy.Dispatch.Wrappers.{
  type_matcher, message_name, wrapped_types, wrap_object-match_type,
}
use criproxy.Proxy.Dispatch.Wrapping.{IsKeptIn}
use criproxy.Tests.Dispatched.{no_streams}

-- A sandbox in the network and with the processes of its node.
abbrev old_sandbox : PodSandboxConfig19
old_sandbox = record {
  metadata = some (record { name = codes "m"; uid = codes "u"; namespace = []; attempt = 1 });
  hostname = codes "host";
  log_directory = [];
  dns_config = none;
  port_mappings = [];
  labels = [];
  annotations = (codes "a", codes "b") ∷ [];
  linux = some (record {
    cgroup_parent = [];
    security_context = some (record {
      namespace_options = some (record { host_network = true; host_pid = true; host_ipc = false });
      selinux_options = none;
      run_as_user = some (record { value = pos 0 });
      readonly_rootfs = false;
      supplemental_groups = [];
      privileged = false;
      seccomp_profile_path = [];
    });
    sysctls = [];
  });
}

abbrev old_run : RunPodSandboxRequest19
old_run = record { config = some old_sandbox }

downgrade_run_pod_sandbox_request-upgrade_test :
    downgrade_run_pod_sandbox_request (upgrade_run_pod_sandbox_request old_run) ≡ old_run
downgrade_run_pod_sandbox_request-upgrade_test = downgrade_run_pod_sandbox_request-upgrade old_run

abbrev old_container : ContainerConfig19
old_container = record {
  metadata = none;
  image = some (record { image = codes "nginx" });
  command = codes "run" ∷ [];
  args = [];
  working_dir = [];
  envs = [];
  mounts = [];
  devices = [];
  labels = [];
  annotations = [];
  log_path = [];
  stdin = false;
  stdin_once = false;
  tty = true;
  linux = some (record {
    resources = none;
    security_context = some (record {
      capabilities = none;
      privileged = true;
      namespace_options = some (record { host_network = false; host_pid = true; host_ipc = false });
      selinux_options = none;
      run_as_user = none;
      run_as_username = [];
      readonly_rootfs = false;
      supplemental_groups = [];
      apparmor_profile = [];
      seccomp_profile_path = [];
      no_new_privs = true;
    });
  });
}

abbrev old_create : CreateContainerRequest19
old_create = record {
  pod_sandbox_id = codes "s1";
  config = some old_container;
  sandbox_config = some old_sandbox;
}

downgrade_create_container_request-upgrade_test :
    downgrade_create_container_request (upgrade_create_container_request old_create) ≡ old_create
downgrade_create_container_request-upgrade_test =
    downgrade_create_container_request-upgrade old_create

-- A request for a runtime handler loses it.
abbrev new_run : RunPodSandboxRequest112
new_run = record { config = none; runtime_handler = codes "kata" }

run_pod_sandbox_request_iff_test :
    (upgrade_run_pod_sandbox_request (downgrade_run_pod_sandbox_request new_run) ≡ new_run)
    ↔ RunRequestIsOld new_run
run_pod_sandbox_request_iff_test = run_pod_sandbox_request_iff new_run

lost_handler_test :
    upgrade_run_pod_sandbox_request (downgrade_run_pod_sandbox_request new_run) ≢ new_run
lost_handler_test e = let k = run_pod_sandbox_request_iff_test.0 e in cc

create_container_request_iff_test :
    (upgrade_create_container_request
        (downgrade_create_container_request (upgrade_create_container_request old_create))
      ≡ upgrade_create_container_request old_create)
    ↔ CreateRequestIsOld (upgrade_create_container_request old_create)
create_container_request_iff_test =
    create_container_request_iff (upgrade_create_container_request old_create)

-- The types of pkg/proxy/typematcher_test.go.
abbrev some_types : List Text
some_types = codes "SomeValue" ∷ codes "SomeRequest" ∷ codes "SomeResponse" ∷ []

match_type-registered_example :
    match_type
      (register_types (map (versioned (codes "123")) some_types) new_type_matcher)
      (codes "Some" ++ request_suffix)
    ≡ matched (codes "123") some_types (codes "Some")
unfolding last_index has_prefix
match_type-registered_example =
    match_type-registered (codes "123") refl some_types (codes "Some")
      ((λ e. cc), ((λ e. cc), ((λ e. cc), tt)))

match_type_test :
    match_type
      (register_types (map (versioned (codes "123")) some_types) new_type_matcher)
      (codes "SomeRequest")
    ≡ some (codes "SomeRequest_123", some (codes "SomeResponse_123"))
unfolding match_type register_types register_type find base_name last_index has_prefix has_suffix
    text_eq
match_type_test = refl

wrap_object-match_type_example :
    (match_type (type_matcher cri19) (message_name (method_of no_streams) ++ request_suffix)
      ≡ wrapped_types cri19 (wrap_object cri19 no_streams))
    × IsKeptIn cri19 no_streams (wrap_object cri19 no_streams)
wrap_object-match_type_example = wrap_object-match_type cri19 no_streams
