-- ===== src/Conversion/Loss/Container.antt =====
-- Which messages of a CreateContainer request of version 1.12 are what they were when they are downgraded
-- and upgraded again.
use criproxy.Prelude.{none, [], ◌≡◌, ap, sym, ◌↔◌}
use criproxy.Proxy.World.{cri19, cri112}
use criproxy.Conversion.Messages.{
  LinuxContainerSecurityContext112, LinuxContainerConfig112, ContainerConfig112,
  CreateContainerRequest112,
}
use criproxy.Conversion.Upgrade.{
  upgrade_namespace_option, upgrade_linux_container_security_context, upgrade_pod_sandbox_config,
  upgrade_linux_container_config, upgrade_container_config, upgrade_create_container_request,
}
use criproxy.Conversion.Downgrade.{
  downgrade_namespace_option, downgrade_linux_container_security_context,
  downgrade_pod_sandbox_config, downgrade_linux_container_config, downgrade_container_config,
  downgrade_create_container_request,
}
use criproxy.Conversion.Paths.{IfThere, map-map, list_map-map, map-map_iff}
use criproxy.Conversion.Loss.{
  NamespacesAreOld, namespace_option_iff, SandboxConfigIsOld, pod_sandbox_config_iff,
}
use criproxy.Conversion.Same.Values.{
  convert_int64_value, convert_key_value, convert_image_spec, convert_capability, convert_device,
  convert_mount, convert_selinux_option, convert_linux_container_resources,
  convert_container_metadata,
}
use criproxy.Conversion.Same.Values.RoundTrip.{
  convert_int64_value-convert, convert_key_value-convert, convert_image_spec-convert,
  convert_capability-convert, convert_device-convert, convert_mount-convert,
  convert_selinux_option-convert, convert_linux_container_resources-convert,
  convert_container_metadata-convert,
}

abbrev pub ContainerContextIsOld : LinuxContainerSecurityContext112 → Type 0
ContainerContextIsOld m =
    (m.run_as_group ≡ none)
    × (m.masked_paths ≡ [])
    × (m.readonly_paths ≡ [])
    × IfThere NamespacesAreOld m.namespace_options

pub linux_container_security_context_iff :
    (m : LinuxContainerSecurityContext112)
    → (upgrade_linux_container_security_context (downgrade_linux_container_security_context m) ≡ m)
      ↔ ContainerContextIsOld m
unfolding upgrade_linux_container_security_context downgrade_linux_container_security_context
linux_container_security_context_iff m = (
  λ e. (
    sym (ap (λ x. x.run_as_group) e),
    sym (ap (λ x. x.masked_paths) e),
    sym (ap (λ x. x.readonly_paths) e),
    (map-map_iff downgrade_namespace_option upgrade_namespace_option NamespacesAreOld
          m.namespace_options namespace_option_iff).0
        (ap (λ x. x.namespace_options) e),
  ),
  λ k. λ i. record m {
    run_as_group = sym k.0 i;
    masked_paths = sym k.1 i;
    readonly_paths = sym k.2 i;
    namespace_options =
        (map-map_iff downgrade_namespace_option upgrade_namespace_option NamespacesAreOld
            m.namespace_options namespace_option_iff).1
          k.3 i;
    capabilities =
        map-map (convert_capability cri19) (convert_capability cri112) m.capabilities
          (convert_capability-convert cri19) i;
    selinux_options =
        map-map (convert_selinux_option cri19) (convert_selinux_option cri112) m.selinux_options
          (convert_selinux_option-convert cri19) i;
    run_as_user =
        map-map (convert_int64_value cri19) (convert_int64_value cri112) m.run_as_user
          (convert_int64_value-convert cri19) i;
  },
)

abbrev pub LinuxContainerIsOld : LinuxContainerConfig112 → Type 0
LinuxContainerIsOld m = IfThere ContainerContextIsOld m.security_context

pub linux_container_config_iff :
    (m : LinuxContainerConfig112)
    → (upgrade_linux_container_config (downgrade_linux_container_config m) ≡ m)
      ↔ LinuxContainerIsOld m
unfolding upgrade_linux_container_config downgrade_linux_container_config
linux_container_config_iff m = (
  λ e.
      (map-map_iff downgrade_linux_container_security_context
          upgrade_linux_container_security_context ContainerContextIsOld m.security_context
          linux_container_security_context_iff).0
        (ap (λ x. x.security_context) e),
  λ k. λ i. record m {
    security_context =
        (map-map_iff downgrade_linux_container_security_context
            upgrade_linux_container_security_context ContainerContextIsOld m.security_context
            linux_container_security_context_iff).1
          k i;
    resources =
        map-map (convert_linux_container_resources cri19) (convert_linux_container_resources cri112)
          m.resources (convert_linux_container_resources-convert cri19) i;
  },
)

abbrev pub ContainerConfigIsOld : ContainerConfig112 → Type 0
ContainerConfigIsOld m = (m.windows ≡ none) × IfThere LinuxContainerIsOld m.linux

pub container_config_iff :
    (m : ContainerConfig112)
    → (upgrade_container_config (downgrade_container_config m) ≡ m) ↔ ContainerConfigIsOld m
unfolding upgrade_container_config downgrade_container_config
container_config_iff m = (
  λ e. (
    sym (ap (λ x. x.windows) e),
    (map-map_iff downgrade_linux_container_config upgrade_linux_container_config LinuxContainerIsOld
          m.linux linux_container_config_iff).0
        (ap (λ x. x.linux) e),
  ),
  λ k. λ i. record m {
    windows = sym k.0 i;
    linux =
        (map-map_iff downgrade_linux_container_config upgrade_linux_container_config
            LinuxContainerIsOld m.linux linux_container_config_iff).1
          k.1 i;
    metadata =
        map-map (convert_container_metadata cri19) (convert_container_metadata cri112) m.metadata
          (convert_container_metadata-convert cri19) i;
    image =
        map-map (convert_image_spec cri19) (convert_image_spec cri112) m.image
          (convert_image_spec-convert cri19) i;
    envs =
        list_map-map (convert_key_value cri19) (convert_key_value cri112) m.envs
          (convert_key_value-convert cri19) i;
    mounts =
        list_map-map (convert_mount cri19) (convert_mount cri112) m.mounts
          (convert_mount-convert cri19) i;
    devices =
        list_map-map (convert_device cri19) (convert_device cri112) m.devices
          (convert_device-convert cri19) i;
  },
)

abbrev pub CreateRequestIsOld : CreateContainerRequest112 → Type 0
CreateRequestIsOld m =
    IfThere ContainerConfigIsOld m.config × IfThere SandboxConfigIsOld m.sandbox_config

-- A CreateContainer request of version 1.12 is what it was, when it is downgraded and upgraded again,
-- exactly if it has no configuration for Windows, no group to run as, no masked or read-only paths, and
-- each of its namespaces, and of its sandbox's, is the pod's or the node's, and its sandbox has no group to
-- run as.
pub create_container_request_iff :
    (m : CreateContainerRequest112)
    → (upgrade_create_container_request (downgrade_create_container_request m) ≡ m)
      ↔ CreateRequestIsOld m
unfolding upgrade_create_container_request downgrade_create_container_request
create_container_request_iff m = (
  λ e. (
    (map-map_iff downgrade_container_config upgrade_container_config ContainerConfigIsOld m.config
          container_config_iff).0
        (ap (λ x. x.config) e),
    (map-map_iff downgrade_pod_sandbox_config upgrade_pod_sandbox_config SandboxConfigIsOld
          m.sandbox_config pod_sandbox_config_iff).0
        (ap (λ x. x.sandbox_config) e),
  ),
  λ k. λ i. record m {
    config =
        (map-map_iff downgrade_container_config upgrade_container_config ContainerConfigIsOld
            m.config container_config_iff).1
          k.0 i;
    sandbox_config =
        (map-map_iff downgrade_pod_sandbox_config upgrade_pod_sandbox_config SandboxConfigIsOld
            m.sandbox_config pod_sandbox_config_iff).1
          k.1 i;
  },
)
