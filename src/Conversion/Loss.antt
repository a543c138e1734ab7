-- ===== src/Conversion/Loss.antt =====
-- Which messages of version 1.12 are what they were when they are downgraded and upgraded again.
pub mod Container
pub mod Stats
pub mod Statuses
use criproxy.Prelude.{none, [], ◌≡◌, refl, ap, if◌then◌else◌, sym, ◌↔◌, ◌⊎◌, inl, inr}
use criproxy.Proxy.World.{Version, cri19, cri112}
use criproxy.Conversion.Messages.{
  NamespaceMode, pod, container, node, other, NamespaceOption112, LinuxSandboxSecurityContext112,
  LinuxPodSandboxConfig112, PodSandboxConfig112, RunPodSandboxRequest112, PullImageRequest112,
}
use criproxy.Conversion.Upgrade.{
  mode_of_host, upgrade_namespace_option, upgrade_linux_sandbox_security_context,
  upgrade_linux_pod_sandbox_config, upgrade_pod_sandbox_config, upgrade_run_pod_sandbox_request,
  upgrade_pull_image_request,
}
use criproxy.Conversion.Downgrade.{
  is_node, downgrade_namespace_option, downgrade_linux_sandbox_security_context,
  downgrade_linux_pod_sandbox_config, downgrade_pod_sandbox_config,
  downgrade_run_pod_sandbox_request, downgrade_pull_image_request,
}
use criproxy.Conversion.Paths.{IfThere, map-map, list_map-map, map-map_iff}
use criproxy.Conversion.Same.Values.{
  convert_int64_value, convert_image_spec, convert_auth_config, convert_dns_config,
  convert_selinux_option, convert_port_mapping, convert_pod_sandbox_metadata,
}
use criproxy.Conversion.Same.Values.RoundTrip.{
  convert_int64_value-convert, convert_image_spec-convert, convert_auth_config-convert,
  convert_dns_config-convert, convert_selinux_option-convert, convert_port_mapping-convert,
  convert_pod_sandbox_metadata-convert,
}

-- Version 1.9 knows the namespaces of the pod and of the node.
abbrev pub ModeIsOld : NamespaceMode → Type 0
ModeIsOld mode = (mode ≡ pod) ⊎ (mode ≡ node)

mode_iff : (mode : NamespaceMode) → (mode_of_host (is_node mode) ≡ mode) ↔ ModeIsOld mode
mode_iff pod = (λ e. inl refl, λ k. refl)
mode_iff node = (λ e. inr refl, λ k. refl)
mode_iff container = (λ e. cc, λ k. elim k [ inl e ↦ cc | inr e ↦ cc ])
mode_iff (other n) = (λ e. cc, λ k. elim k [ inl e ↦ cc | inr e ↦ cc ])

abbrev pub NamespacesAreOld : NamespaceOption112 → Type 0
NamespacesAreOld m = ModeIsOld m.network × ModeIsOld m.pid × ModeIsOld m.ipc

pub namespace_option_iff :
    (m : NamespaceOption112)
    → (upgrade_namespace_option (downgrade_namespace_option m) ≡ m) ↔ NamespacesAreOld m
unfolding upgrade_namespace_option downgrade_namespace_option
namespace_option_iff m = (
  λ e. (
    (mode_iff m.network).0 (ap (λ x. x.network) e),
    (mode_iff m.pid).0 (ap (λ x. x.pid) e),
    (mode_iff m.ipc).0 (ap (λ x. x.ipc) e),
  ),
  λ k. rw ((mode_iff m.network).1 k.0, (mode_iff m.pid).1 k.1, (mode_iff m.ipc).1 k.2) refl,
)

abbrev pub SandboxContextIsOld : LinuxSandboxSecurityContext112 → Type 0
SandboxContextIsOld m = (m.run_as_group ≡ none) × IfThere NamespacesAreOld m.namespace_options

pub linux_sandbox_security_context_iff :
    (m : LinuxSandboxSecurityContext112)
    → (upgrade_linux_sandbox_security_context (downgrade_linux_sandbox_security_context m) ≡ m)
      ↔ SandboxContextIsOld m
unfolding upgrade_linux_sandbox_security_context downgrade_linux_sandbox_security_context
linux_sandbox_security_context_iff m = (
  λ e. (
    sym (ap (λ x. x.run_as_group) e),
    (map-map_iff downgrade_namespace_option upgrade_namespace_option NamespacesAreOld
          m.namespace_options namespace_option_iff).0
        (ap (λ x. x.namespace_options) e),
  ),
  λ k. λ i. record m {
    run_as_group = sym k.0 i;
    namespace_options =
        (map-map_iff downgrade_namespace_option upgrade_namespace_option NamespacesAreOld
            m.namespace_options namespace_option_iff).1
          k.1 i;
    selinux_options =
        map-map (convert_selinux_option cri19) (convert_selinux_option cri112) m.selinux_options
          (convert_selinux_option-convert cri19) i;
    run_as_user =
        map-map (convert_int64_value cri19) (convert_int64_value cri112) m.run_as_user
          (convert_int64_value-convert cri19) i;
  },
)

abbrev pub LinuxSandboxIsOld : LinuxPodSandboxConfig112 → Type 0
LinuxSandboxIsOld m = IfThere SandboxContextIsOld m.security_context

pub linux_pod_sandbox_config_iff :
    (m : LinuxPodSandboxConfig112)
    → (upgrade_linux_pod_sandbox_config (downgrade_linux_pod_sandbox_config m) ≡ m)
      ↔ LinuxSandboxIsOld m
unfolding upgrade_linux_pod_sandbox_config downgrade_linux_pod_sandbox_config
linux_pod_sandbox_config_iff m = (
  λ e.
      (map-map_iff downgrade_linux_sandbox_security_context upgrade_linux_sandbox_security_context
          SandboxContextIsOld m.security_context linux_sandbox_security_context_iff).0
        (ap (λ x. x.security_context) e),
  λ k. λ i. record m {
    security_context =
        (map-map_iff downgrade_linux_sandbox_security_context upgrade_linux_sandbox_security_context
            SandboxContextIsOld m.security_context linux_sandbox_security_context_iff).1
          k i;
  },
)

abbrev pub SandboxConfigIsOld : PodSandboxConfig112 → Type 0
SandboxConfigIsOld m = IfThere LinuxSandboxIsOld m.linux

pub pod_sandbox_config_iff :
    (m : PodSandboxConfig112)
    → (upgrade_pod_sandbox_config (downgrade_pod_sandbox_config m) ≡ m) ↔ SandboxConfigIsOld m
unfolding upgrade_pod_sandbox_config downgrade_pod_sandbox_config
pod_sandbox_config_iff m = (
  λ e.
      (map-map_iff downgrade_linux_pod_sandbox_config upgrade_linux_pod_sandbox_config
          LinuxSandboxIsOld m.linux linux_pod_sandbox_config_iff).0
        (ap (λ x. x.linux) e),
  λ k. λ i. record m {
    linux =
        (map-map_iff downgrade_linux_pod_sandbox_config upgrade_linux_pod_sandbox_config
            LinuxSandboxIsOld m.linux linux_pod_sandbox_config_iff).1
          k i;
    metadata =
        map-map (convert_pod_sandbox_metadata cri19) (convert_pod_sandbox_metadata cri112)
          m.metadata (convert_pod_sandbox_metadata-convert cri19) i;
    dns_config =
        map-map (convert_dns_config cri19) (convert_dns_config cri112) m.dns_config
          (convert_dns_config-convert cri19) i;
    port_mappings =
        list_map-map (convert_port_mapping cri19) (convert_port_mapping cri112) m.port_mappings
          (convert_port_mapping-convert cri19) i;
  },
)

abbrev pub RunRequestIsOld : RunPodSandboxRequest112 → Type 0
RunRequestIsOld m = (m.runtime_handler ≡ []) × IfThere SandboxConfigIsOld m.config

-- A RunPodSandbox request of version 1.12 is what it was, when it is downgraded and upgraded again,
-- exactly if it names no runtime handler, its sandbox no group to run as, and each of its namespaces is
-- the pod's or the node's.
pub run_pod_sandbox_request_iff :
    (m : RunPodSandboxRequest112)
    → (upgrade_run_pod_sandbox_request (downgrade_run_pod_sandbox_request m) ≡ m)
      ↔ RunRequestIsOld m
unfolding upgrade_run_pod_sandbox_request downgrade_run_pod_sandbox_request
run_pod_sandbox_request_iff m = (
  λ e. (
    sym (ap (λ x. x.runtime_handler) e),
    (map-map_iff downgrade_pod_sandbox_config upgrade_pod_sandbox_config SandboxConfigIsOld m.config
          pod_sandbox_config_iff).0
        (ap (λ x. x.config) e),
  ),
  λ k. λ i. record m {
    runtime_handler = sym k.0 i;
    config =
        (map-map_iff downgrade_pod_sandbox_config upgrade_pod_sandbox_config SandboxConfigIsOld
            m.config pod_sandbox_config_iff).1
          k.1 i;
  },
)

abbrev pub PullRequestIsOld : PullImageRequest112 → Type 0
PullRequestIsOld m = IfThere SandboxConfigIsOld m.sandbox_config

pub pull_image_request_iff :
    (m : PullImageRequest112)
    → (upgrade_pull_image_request (downgrade_pull_image_request m) ≡ m) ↔ PullRequestIsOld m
unfolding upgrade_pull_image_request downgrade_pull_image_request
pull_image_request_iff m = (
  λ e.
      (map-map_iff downgrade_pod_sandbox_config upgrade_pod_sandbox_config SandboxConfigIsOld
          m.sandbox_config pod_sandbox_config_iff).0
        (ap (λ x. x.sandbox_config) e),
  λ k. λ i. record m {
    sandbox_config =
        (map-map_iff downgrade_pod_sandbox_config upgrade_pod_sandbox_config SandboxConfigIsOld
            m.sandbox_config pod_sandbox_config_iff).1
          k i;
    image =
        map-map (convert_image_spec cri19) (convert_image_spec cri112) m.image
          (convert_image_spec-convert cri19) i;
    auth =
        map-map (convert_auth_config cri19) (convert_auth_config cri112) m.auth
          (convert_auth_config-convert cri19) i;
  },
)
