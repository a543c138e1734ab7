-- ===== src/Conversion/Downgrade.antt =====
-- Downgrade of pkg/runtimeapis/convert.go for these messages: Convert_v1_12_ and autoConvert_v1_12_ functions
-- of pkg/runtimeapis/v1_9/conversion.go and pkg/runtimeapis/v1_9/conversion_generated.go.
pub mod Statuses
use mathlib.Core.Option
use criproxy.Prelude.{Bool, true, false, map}
use criproxy.Proxy.World.{cri19}
use criproxy.Conversion.Messages.{
  NamespaceMode, node, NamespaceOption19, NamespaceOption112, LinuxSandboxSecurityContext19,
  LinuxSandboxSecurityContext112, LinuxContainerSecurityContext19, LinuxContainerSecurityContext112,
  LinuxPodSandboxConfig19, LinuxPodSandboxConfig112, PodSandboxConfig19, PodSandboxConfig112,
  RunPodSandboxRequest19, RunPodSandboxRequest112, PullImageRequest19, PullImageRequest112,
  LinuxContainerConfig19, LinuxContainerConfig112, ContainerConfig19, ContainerConfig112,
  CreateContainerRequest19, CreateContainerRequest112,
}
use criproxy.Conversion.Same.Values.{
  convert_int64_value, convert_key_value, convert_image_spec, convert_auth_config,
  convert_capability, convert_dns_config, convert_device, convert_mount, convert_selinux_option,
  convert_port_mapping, convert_linux_container_resources, convert_container_metadata,
  convert_pod_sandbox_metadata,
}

abbrev pub is_node : NamespaceMode → Bool
is_node node = true
is_node _ = false

unfoldable pub downgrade_namespace_option : NamespaceOption112 → NamespaceOption19
downgrade_namespace_option m = record {
  host_network = is_node m.network;
  host_pid = is_node m.pid;
  host_ipc = is_node m.ipc;
}

unfoldable pub downgrade_linux_sandbox_security_context :
    LinuxSandboxSecurityContext112 → LinuxSandboxSecurityContext19
unfolding downgrade_namespace_option
downgrade_linux_sandbox_security_context m = record {
  namespace_options = Option.map downgrade_namespace_option m.namespace_options;
  selinux_options = Option.map (convert_selinux_option cri19) m.selinux_options;
  run_as_user = Option.map (convert_int64_value cri19) m.run_as_user;
  readonly_rootfs = m.readonly_rootfs;
  supplemental_groups = m.supplemental_groups;
  privileged = m.privileged;
  seccomp_profile_path = m.seccomp_profile_path;
}

unfoldable pub downgrade_linux_container_security_context :
    LinuxContainerSecurityContext112 → LinuxContainerSecurityContext19
unfolding downgrade_namespace_option
downgrade_linux_container_security_context m = record {
  capabilities = Option.map (convert_capability cri19) m.capabilities;
  privileged = m.privileged;
  namespace_options = Option.map downgrade_namespace_option m.namespace_options;
  selinux_options = Option.map (convert_selinux_option cri19) m.selinux_options;
  run_as_user = Option.map (convert_int64_value cri19) m.run_as_user;
  run_as_username = m.run_as_username;
  readonly_rootfs = m.readonly_rootfs;
  supplemental_groups = m.supplemental_groups;
  apparmor_profile = m.apparmor_profile;
  seccomp_profile_path = m.seccomp_profile_path;
  no_new_privs = m.no_new_privs;
}

unfoldable pub downgrade_linux_pod_sandbox_config :
    LinuxPodSandboxConfig112 → LinuxPodSandboxConfig19
unfolding downgrade_linux_sandbox_security_context
downgrade_linux_pod_sandbox_config m = record {
  cgroup_parent = m.cgroup_parent;
  security_context = Option.map downgrade_linux_sandbox_security_context m.security_context;
  sysctls = m.sysctls;
}

unfoldable pub downgrade_pod_sandbox_config : PodSandboxConfig112 → PodSandboxConfig19
unfolding downgrade_linux_pod_sandbox_config
downgrade_pod_sandbox_config m = record {
  metadata = Option.map (convert_pod_sandbox_metadata cri19) m.metadata;
  hostname = m.hostname;
  log_directory = m.log_directory;
  dns_config = Option.map (convert_dns_config cri19) m.dns_config;
  port_mappings = map (convert_port_mapping cri19) m.port_mappings;
  labels = m.labels;
  annotations = m.annotations;
  linux = Option.map downgrade_linux_pod_sandbox_config m.linux;
}

unfoldable pub downgrade_run_pod_sandbox_request : RunPodSandboxRequest112 → RunPodSandboxRequest19
unfolding downgrade_pod_sandbox_config
downgrade_run_pod_sandbox_request m = record {
  config = Option.map downgrade_pod_sandbox_config m.config;
}

unfoldable pub downgrade_pull_image_request : PullImageRequest112 → PullImageRequest19
unfolding downgrade_pod_sandbox_config
downgrade_pull_image_request m = record {
  image = Option.map (convert_image_spec cri19) m.image;
  auth = Option.map (convert_auth_config cri19) m.auth;
  sandbox_config = Option.map downgrade_pod_sandbox_config m.sandbox_config;
}

unfoldable pub downgrade_linux_container_config : LinuxContainerConfig112 → LinuxContainerConfig19
unfolding downgrade_linux_container_security_context
downgrade_linux_container_config m = record {
  resources = Option.map (convert_linux_container_resources cri19) m.resources;
  security_context = Option.map downgrade_linux_container_security_context m.security_context;
}

unfoldable pub downgrade_container_config : ContainerConfig112 → ContainerConfig19
unfolding downgrade_linux_container_config
downgrade_container_config m = record {
  metadata = Option.map (convert_container_metadata cri19) m.metadata;
  image = Option.map (convert_image_spec cri19) m.image;
  command = m.command;
  args = m.args;
  working_dir = m.working_dir;
  envs = map (convert_key_value cri19) m.envs;
  mounts = map (convert_mount cri19) m.mounts;
  devices = map (convert_device cri19) m.devices;
  labels = m.labels;
  annotations = m.annotations;
  log_path = m.log_path;
  stdin = m.stdin;
  stdin_once = m.stdin_once;
  tty = m.tty;
  linux = Option.map downgrade_linux_container_config m.linux;
}

unfoldable pub downgrade_create_container_request :
    CreateContainerRequest112 → CreateContainerRequest19
unfolding downgrade_container_config downgrade_pod_sandbox_config
downgrade_create_container_request m = record {
  pod_sandbox_id = m.pod_sandbox_id;
  config = Option.map downgrade_container_config m.config;
  sandbox_config = Option.map downgrade_pod_sandbox_config m.sandbox_config;
}
