-- ===== src/Conversion/RoundTrip.antt =====
-- A message of version 1.9 is what it was when it is upgraded and downgraded again.
pub mod Statuses
use criproxy.Prelude.{Bool, true, false, ◌≡◌, refl}
use criproxy.Proxy.World.{cri19, cri112}
use criproxy.Conversion.Messages.{
  NamespaceOption19, LinuxSandboxSecurityContext19, LinuxContainerSecurityContext19,
  LinuxPodSandboxConfig19, PodSandboxConfig19, RunPodSandboxRequest19, PullImageRequest19,
  LinuxContainerConfig19, ContainerConfig19, CreateContainerRequest19,
}
use criproxy.Conversion.Upgrade.{
  mode_of_host, upgrade_namespace_option, upgrade_linux_sandbox_security_context,
  upgrade_linux_container_security_context, upgrade_linux_pod_sandbox_config,
  upgrade_pod_sandbox_config, upgrade_run_pod_sandbox_request, upgrade_pull_image_request,
  upgrade_linux_container_config, upgrade_container_config, upgrade_create_container_request,
}
use criproxy.Conversion.Downgrade.{
  is_node, downgrade_namespace_option, downgrade_linux_sandbox_security_context,
  downgrade_linux_container_security_context, downgrade_linux_pod_sandbox_config,
  downgrade_pod_sandbox_config, downgrade_run_pod_sandbox_request, downgrade_pull_image_request,
  downgrade_linux_container_config, downgrade_container_config, downgrade_create_container_request,
}
use criproxy.Conversion.Paths.{map-map, list_map-map}
use criproxy.Conversion.Same.Values.{
  convert_int64_value, convert_key_value, convert_image_spec, convert_auth_config,
  convert_capability, convert_dns_config, convert_device, convert_mount, convert_selinux_option,
  convert_port_mapping, convert_linux_container_resources, convert_container_metadata,
  convert_pod_sandbox_metadata,
}
use criproxy.Conversion.Same.Values.RoundTrip.{
  convert_int64_value-convert, convert_key_value-convert, convert_image_spec-convert,
  convert_auth_config-convert, convert_capability-convert, convert_dns_config-convert,
  convert_device-convert, convert_mount-convert, convert_selinux_option-convert,
  convert_port_mapping-convert, convert_linux_container_resources-convert,
  convert_container_metadata-convert, convert_pod_sandbox_metadata-convert,
}

is_node-mode_of_host : (b : Bool) → is_node (mode_of_host b) ≡ b
is_node-mode_of_host true = refl
is_node-mode_of_host false = refl

pub downgrade_namespace_option-upgrade :
    (m : NamespaceOption19) → downgrade_namespace_option (upgrade_namespace_option m) ≡ m
unfolding downgrade_namespace_option upgrade_namespace_option
downgrade_namespace_option-upgrade m = λ i. record m {
  host_network = is_node-mode_of_host m.host_network i;
  host_pid = is_node-mode_of_host m.host_pid i;
  host_ipc = is_node-mode_of_host m.host_ipc i;
}

pub downgrade_linux_sandbox_security_context-upgrade :
    (m : LinuxSandboxSecurityContext19)
    → downgrade_linux_sandbox_security_context (upgrade_linux_sandbox_security_context m) ≡ m
unfolding downgrade_linux_sandbox_security_context upgrade_linux_sandbox_security_context
downgrade_linux_sandbox_security_context-upgrade m = λ i. record m {
  namespace_options =
      map-map upgrade_namespace_option downgrade_namespace_option m.namespace_options
        downgrade_namespace_option-upgrade i;
  selinux_options =
      map-map (convert_selinux_option cri112) (convert_selinux_option cri19) m.selinux_options
        (convert_selinux_option-convert cri112) i;
  run_as_user =
      map-map (convert_int64_value cri112) (convert_int64_value cri19) m.run_as_user
        (convert_int64_value-convert cri112) i;
}

pub downgrade_linux_container_security_context-upgrade :
    (m : LinuxContainerSecurityContext19)
    → downgrade_linux_container_security_context (upgrade_linux_container_security_context m) ≡ m
unfolding downgrade_linux_container_security_context upgrade_linux_container_security_context
downgrade_linux_container_security_context-upgrade m = λ i. record m {
  capabilities =
      map-map (convert_capability cri112) (convert_capability cri19) m.capabilities
        (convert_capability-convert cri112) i;
  namespace_options =
      map-map upgrade_namespace_option downgrade_namespace_option m.namespace_options
        downgrade_namespace_option-upgrade i;
  selinux_options =
      map-map (convert_selinux_option cri112) (convert_selinux_option cri19) m.selinux_options
        (convert_selinux_option-convert cri112) i;
  run_as_user =
      map-map (convert_int64_value cri112) (convert_int64_value cri19) m.run_as_user
        (convert_int64_value-convert cri112) i;
}

pub downgrade_linux_pod_sandbox_config-upgrade :
    (m : LinuxPodSandboxConfig19)
    → downgrade_linux_pod_sandbox_config (upgrade_linux_pod_sandbox_config m) ≡ m
unfolding downgrade_linux_pod_sandbox_config upgrade_linux_pod_sandbox_config
downgrade_linux_pod_sandbox_config-upgrade m = λ i. record m {
  security_context =
      map-map upgrade_linux_sandbox_security_context downgrade_linux_sandbox_security_context
        m.security_context downgrade_linux_sandbox_security_context-upgrade i;
}

pub downgrade_pod_sandbox_config-upgrade :
    (m : PodSandboxConfig19) → downgrade_pod_sandbox_config (upgrade_pod_sandbox_config m) ≡ m
unfolding downgrade_pod_sandbox_config upgrade_pod_sandbox_config
downgrade_pod_sandbox_config-upgrade m = λ i. record m {
  metadata =
      map-map (convert_pod_sandbox_metadata cri112) (convert_pod_sandbox_metadata cri19) m.metadata
        (convert_pod_sandbox_metadata-convert cri112) i;
  dns_config =
      map-map (convert_dns_config cri112) (convert_dns_config cri19) m.dns_config
        (convert_dns_config-convert cri112) i;
  port_mappings =
      list_map-map (convert_port_mapping cri112) (convert_port_mapping cri19) m.port_mappings
        (convert_port_mapping-convert cri112) i;
  linux =
      map-map upgrade_linux_pod_sandbox_config downgrade_linux_pod_sandbox_config m.linux
        downgrade_linux_pod_sandbox_config-upgrade i;
}

-- A RunPodSandbox request of version 1.9 is what it was when it is upgraded and downgraded again.
pub downgrade_run_pod_sandbox_request-upgrade :
    (m : RunPodSandboxRequest19)
    → downgrade_run_pod_sandbox_request (upgrade_run_pod_sandbox_request m) ≡ m
unfolding downgrade_run_pod_sandbox_request upgrade_run_pod_sandbox_request
downgrade_run_pod_sandbox_request-upgrade m = λ i. record m {
  config =
      map-map upgrade_pod_sandbox_config downgrade_pod_sandbox_config m.config
        downgrade_pod_sandbox_config-upgrade i;
}

pub downgrade_pull_image_request-upgrade :
    (m : PullImageRequest19) → downgrade_pull_image_request (upgrade_pull_image_request m) ≡ m
unfolding downgrade_pull_image_request upgrade_pull_image_request
downgrade_pull_image_request-upgrade m = λ i. record m {
  image =
      map-map (convert_image_spec cri112) (convert_image_spec cri19) m.image
        (convert_image_spec-convert cri112) i;
  auth =
      map-map (convert_auth_config cri112) (convert_auth_config cri19) m.auth
        (convert_auth_config-convert cri112) i;
  sandbox_config =
      map-map upgrade_pod_sandbox_config downgrade_pod_sandbox_config m.sandbox_config
        downgrade_pod_sandbox_config-upgrade i;
}

pub downgrade_linux_container_config-upgrade :
    (m : LinuxContainerConfig19)
    → downgrade_linux_container_config (upgrade_linux_container_config m) ≡ m
unfolding downgrade_linux_container_config upgrade_linux_container_config
downgrade_linux_container_config-upgrade m = λ i. record m {
  resources =
      map-map (convert_linux_container_resources cri112) (convert_linux_container_resources cri19)
        m.resources (convert_linux_container_resources-convert cri112) i;
  security_context =
      map-map upgrade_linux_container_security_context downgrade_linux_container_security_context
        m.security_context downgrade_linux_container_security_context-upgrade i;
}

pub downgrade_container_config-upgrade :
    (m : ContainerConfig19) → downgrade_container_config (upgrade_container_config m) ≡ m
unfolding downgrade_container_config upgrade_container_config
downgrade_container_config-upgrade m = λ i. record m {
  metadata =
      map-map (convert_container_metadata cri112) (convert_container_metadata cri19) m.metadata
        (convert_container_metadata-convert cri112) i;
  image =
      map-map (convert_image_spec cri112) (convert_image_spec cri19) m.image
        (convert_image_spec-convert cri112) i;
  envs =
      list_map-map (convert_key_value cri112) (convert_key_value cri19) m.envs
        (convert_key_value-convert cri112) i;
  mounts =
      list_map-map (convert_mount cri112) (convert_mount cri19) m.mounts
        (convert_mount-convert cri112) i;
  devices =
      list_map-map (convert_device cri112) (convert_device cri19) m.devices
        (convert_device-convert cri112) i;
  linux =
      map-map upgrade_linux_container_config downgrade_linux_container_config m.linux
        downgrade_linux_container_config-upgrade i;
}

-- A CreateContainer request of version 1.9 is what it was when it is upgraded and downgraded again.
pub downgrade_create_container_request-upgrade :
    (m : CreateContainerRequest19)
    → downgrade_create_container_request (upgrade_create_container_request m) ≡ m
unfolding downgrade_create_container_request upgrade_create_container_request
downgrade_create_container_request-upgrade m = λ i. record m {
  config =
      map-map upgrade_container_config downgrade_container_config m.config
        downgrade_container_config-upgrade i;
  sandbox_config =
      map-map upgrade_pod_sandbox_config downgrade_pod_sandbox_config m.sandbox_config
        downgrade_pod_sandbox_config-upgrade i;
}
