-- ===== src/Conversion/Upgrade.antt =====
-- Upgrade of pkg/runtimeapis/convert.go for these messages: Convert_v1_9_ and autoConvert_v1_9_ functions
-- of pkg/runtimeapis/v1_9/conversion.go and pkg/runtimeapis/v1_9/conversion_generated.go.
-- A field that version 1.9 does not have keeps its zero value.
pub mod Statuses
use mathlib.Core.Option
use criproxy.Prelude.{Bool, none, [], map, if◌then◌else◌}
use criproxy.Proxy.World.{cri112}
use criproxy.Conversion.Messages.{
  NamespaceMode, pod, node, NamespaceOption19, NamespaceOption112, LinuxSandboxSecurityContext19,
  LinuxSandboxSecurityContext112, LinuxContainerSecurityContext19, LinuxContainerSecurityContext112,
  LinuxPodSandboxConfig19, LinuxPodSandboxConfig112, PodSandboxConfig19, PodSandboxConfig112,
  RunPodSandboxRequest19, RunPodSandboxRequest112, PullImageRequest19, PullImageRequest112,
  LinuxContainerConfig19, LinuxContainerConfig112, ContainerConfig19, ContainerConfig112,
  CreateContainerRequest19, CreateContainerRequest112,
}
use criproxy.Conversion.Same.Values.{
  convert_int64_value, convert_key_value, convert_image_spec, convert_auth_config,
  convert_capability, convert_dns_config, convert_device, convert_mount, convert_selinux_option,
  convert_port_mapping, convert_linux_container_resources, convert_container_metadata,
  convert_pod_sandbox_metadata,
}

abbrev pub mode_of_host : Bool → NamespaceMode
mode_of_host host = if host then node else pod

unfoldable pub upgrade_namespace_option : NamespaceOption19 → NamespaceOption112
upgrade_namespace_option m = record {
  network = mode_of_host m.host_network;
  pid = mode_of_host m.host_pid;
  ipc = mode_of_host m.host_ipc;
}

unfoldable pub upgrade_linux_sandbox_security_context :
    LinuxSandboxSecurityContext19 → LinuxSandboxSecurityContext112
unfolding upgrade_namespace_option
upgrade_linux_sandbox_security_context m = record {
  namespace_options = Option.map upgrade_namespace_option m.namespace_options;
  selinux_options = Option.map (convert_selinux_option cri112) m.selinux_options;
  run_as_user = Option.map (convert_int64_value cri112) m.run_as_user;
  run_as_group = none;
  readonly_rootfs = m.readonly_rootfs;
  supplemental_groups = m.supplemental_groups;
  privileged = m.privileged;
  seccomp_profile_path = m.seccomp_profile_path;
}

unfoldable pub upgrade_linux_container_security_context :
    LinuxContainerSecurityContext19 → LinuxContainerSecurityContext112
unfolding upgrade_namespace_option
upgrade_linux_container_security_context m = record {
  capabilities = Option.map (convert_capability cri112) m.capabilities;
  privileged = m.privileged;
  namespace_options = Option.map upgrade_namespace_option m.namespace_options;
  selinux_options = Option.map (convert_selinux_option cri112) m.selinux_options;
  run_as_user = Option.map (convert_int64_value cri112) m.run_as_user;
  run_as_group = none;
  run_as_username = m.run_as_username;
  readonly_rootfs = m.readonly_rootfs;
  supplemental_groups = m.supplemental_groups;
  apparmor_profile = m.apparmor_profile;
  seccomp_profile_path = m.seccomp_profile_path;
  no_new_privs = m.no_new_privs;
  masked_paths = [];
  readonly_paths = [];
}

unfoldable pub upgrade_linux_pod_sandbox_config : LinuxPodSandboxConfig19 → LinuxPodSandboxConfig112
unfolding upgrade_linux_sandbox_security_context
upgrade_linux_pod_sandbox_config m = record {
  cgroup_parent = m.cgroup_parent;
  security_context = Option.map upgrade_linux_sandbox_security_context m.security_context;
  sysctls = m.sysctls;
}

unfoldable pub upgrade_pod_sandbox_config : PodSandboxConfig19 → PodSandboxConfig112
unfolding upgrade_linux_pod_sandbox_config
upgrade_pod_sandbox_config m = record {
  metadata = Option.map (convert_pod_sandbox_metadata cri112) m.metadata;
  hostname = m.hostname;
  log_directory = m.log_directory;
  dns_config = Option.map (convert_dns_config cri112) m.dns_config;
  port_mappings = map (convert_port_mapping cri112) m.port_mappings;
  labels = m.labels;
  annotations = m.annotations;
  linux = Option.map upgrade_linux_pod_sandbox_config m.linux;
}

unfoldable pub upgrade_run_pod_sandbox_request : RunPodSandboxRequest19 → RunPodSandboxRequest112
unfolding upgrade_pod_sandbox_config
upgrade_run_pod_sandbox_request m = record {
  config = Option.map upgrade_pod_sandbox_config m.config;
  runtime_handler = [];
}

unfoldable pub upgrade_pull_image_request : PullImageRequest19 → PullImageRequest112
unfolding upgrade_pod_sandbox_config
upgrade_pull_image_request m = record {
  image = Option.map (convert_image_spec cri112) m.image;
  auth = Option.map (convert_auth_config cri112) m.auth;
  sandbox_config = Option.map upgrade_pod_sandbox_config m.sandbox_config;
}

unfoldable pub upgrade_linux_container_config : LinuxContainerConfig19 → LinuxContainerConfig112
unfolding upgrade_linux_container_security_context
upgrade_linux_container_config m = record {
  resources = Option.map (convert_linux_container_resources cri112) m.resources;
  security_context = Option.map upgrade_linux_container_security_context m.security_context;
}

unfoldable pub upgrade_container_config : ContainerConfig19 → ContainerConfig112
unfolding upgrade_linux_container_config
upgrade_container_config m = record {
  metadata = Option.map (convert_container_metadata cri112) m.metadata;
  image = Option.map (convert_image_spec cri112) m.image;
  command = m.command;
  args = m.args;
  working_dir = m.working_dir;
  envs = map (convert_key_value cri112) m.envs;
  mounts = map (convert_mount cri112) m.mounts;
  devices = map (convert_device cri112) m.devices;
  labels = m.labels;
  annotations = m.annotations;
  log_path = m.log_path;
  stdin = m.stdin;
  stdin_once = m.stdin_once;
  tty = m.tty;
  linux = Option.map upgrade_linux_container_config m.linux;
  windows = none;
}

unfoldable pub upgrade_create_container_request :
    CreateContainerRequest19 → CreateContainerRequest112
unfolding upgrade_container_config upgrade_pod_sandbox_config
upgrade_create_container_request m = record {
  pod_sandbox_id = m.pod_sandbox_id;
  config = Option.map upgrade_container_config m.config;
  sandbox_config = Option.map upgrade_pod_sandbox_config m.sandbox_config;
}
