-- ===== src/Conversion/Loss/Statuses.antt =====
-- Which statuses of version 1.12 are what they were when they are downgraded and upgraded again.
use criproxy.Prelude.{◌≡◌, ap, ◌↔◌}
use criproxy.Proxy.World.{cri19, cri112}
use criproxy.Conversion.Messages.Statuses.{
  Namespace112, LinuxPodSandboxStatus112, PodSandboxStatus112, PodSandboxStatusResponse112,
}
use criproxy.Conversion.Upgrade.{upgrade_namespace_option}
use criproxy.Conversion.Upgrade.Statuses.{
  upgrade_namespace, upgrade_linux_pod_sandbox_status, upgrade_pod_sandbox_status,
  upgrade_pod_sandbox_status_response,
}
use criproxy.Conversion.Downgrade.{downgrade_namespace_option}
use criproxy.Conversion.Downgrade.Statuses.{
  downgrade_namespace, downgrade_linux_pod_sandbox_status, downgrade_pod_sandbox_status,
  downgrade_pod_sandbox_status_response,
}
use criproxy.Conversion.Paths.{IfThere, map-map, map-map_iff}
use criproxy.Conversion.Loss.{NamespacesAreOld, namespace_option_iff}
use criproxy.Conversion.Same.Values.{convert_pod_sandbox_metadata}
use criproxy.Conversion.Same.Sandboxes.{convert_pod_sandbox_network_status}
use criproxy.Conversion.Same.Values.RoundTrip.{convert_pod_sandbox_metadata-convert}
use criproxy.Conversion.Same.Sandboxes.RoundTrip.{convert_pod_sandbox_network_status-convert}

abbrev pub NamespaceIsOld : Namespace112 → Type 0
NamespaceIsOld m = IfThere NamespacesAreOld m.options

pub namespace_iff :
    (m : Namespace112) → (upgrade_namespace (downgrade_namespace m) ≡ m) ↔ NamespaceIsOld m
unfolding upgrade_namespace downgrade_namespace
namespace_iff m = (
  λ e.
      (map-map_iff downgrade_namespace_option upgrade_namespace_option NamespacesAreOld m.options
          namespace_option_iff).0
        (ap (λ x. x.options) e),
  λ k. λ i. record m {
    options =
        (map-map_iff downgrade_namespace_option upgrade_namespace_option NamespacesAreOld m.options
            namespace_option_iff).1
          k i;
  },
)

abbrev pub LinuxStatusIsOld : LinuxPodSandboxStatus112 → Type 0
LinuxStatusIsOld m = IfThere NamespaceIsOld m.namespaces

pub linux_pod_sandbox_status_iff :
    (m : LinuxPodSandboxStatus112)
    → (upgrade_linux_pod_sandbox_status (downgrade_linux_pod_sandbox_status m) ≡ m)
      ↔ LinuxStatusIsOld m
unfolding upgrade_linux_pod_sandbox_status downgrade_linux_pod_sandbox_status
linux_pod_sandbox_status_iff m = (
  λ e.
      (map-map_iff downgrade_namespace upgrade_namespace NamespaceIsOld m.namespaces
          namespace_iff).0
        (ap (λ x. x.namespaces) e),
  λ k. λ i. record m {
    namespaces =
        (map-map_iff downgrade_namespace upgrade_namespace NamespaceIsOld m.namespaces
            namespace_iff).1
          k i;
  },
)

abbrev pub SandboxStatusIsOld : PodSandboxStatus112 → Type 0
SandboxStatusIsOld m = IfThere LinuxStatusIsOld m.linux

pub pod_sandbox_status_iff :
    (m : PodSandboxStatus112)
    → (upgrade_pod_sandbox_status (downgrade_pod_sandbox_status m) ≡ m) ↔ SandboxStatusIsOld m
unfolding upgrade_pod_sandbox_status downgrade_pod_sandbox_status
pod_sandbox_status_iff m = (
  λ e.
      (map-map_iff downgrade_linux_pod_sandbox_status upgrade_linux_pod_sandbox_status
          LinuxStatusIsOld m.linux linux_pod_sandbox_status_iff).0
        (ap (λ x. x.linux) e),
  λ k. λ i. record m {
    linux =
        (map-map_iff downgrade_linux_pod_sandbox_status upgrade_linux_pod_sandbox_status
            LinuxStatusIsOld m.linux linux_pod_sandbox_status_iff).1
          k i;
    metadata =
        map-map (convert_pod_sandbox_metadata cri19) (convert_pod_sandbox_metadata cri112)
          m.metadata (convert_pod_sandbox_metadata-convert cri19) i;
    network =
        map-map (convert_pod_sandbox_network_status cri19)
          (convert_pod_sandbox_network_status cri112) m.network
          (convert_pod_sandbox_network_status-convert cri19) i;
  },
)

abbrev pub StatusResponseIsOld : PodSandboxStatusResponse112 → Type 0
StatusResponseIsOld m = IfThere SandboxStatusIsOld m.status

pub pod_sandbox_status_response_iff :
    (m : PodSandboxStatusResponse112)
    → (upgrade_pod_sandbox_status_response (downgrade_pod_sandbox_status_response m) ≡ m)
      ↔ StatusResponseIsOld m
unfolding upgrade_pod_sandbox_status_response downgrade_pod_sandbox_status_response
pod_sandbox_status_response_iff m = (
  λ e.
      (map-map_iff downgrade_pod_sandbox_status upgrade_pod_sandbox_status SandboxStatusIsOld
          m.status pod_sandbox_status_iff).0
        (ap (λ x. x.status) e),
  λ k. λ i. record m {
    status =
        (map-map_iff downgrade_pod_sandbox_status upgrade_pod_sandbox_status SandboxStatusIsOld
            m.status pod_sandbox_status_iff).1
          k i;
  },
)
