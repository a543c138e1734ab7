-- ===== src/Conversion/Messages.antt =====
-- The messages of pkg/runtimeapis/v1_9 and pkg/runtimeapis/v1_12 that differ between the versions, or
-- hold one that does.
pub mod Statuses
use criproxy.Prelude.{ℕ, ℤ, Bool, Option, List}
use criproxy.Text.{Text}
use criproxy.Naming.{Annotations}
use criproxy.Proxy.World.{cri19, cri112}
use criproxy.Conversion.Same.Values.{
  Int64ValueOf, KeyValueOf, ImageSpecOf, AuthConfigOf, CapabilityOf, DnsConfigOf, DeviceOf, MountOf,
  SelinuxOptionOf, PortMappingOf, LinuxContainerResourcesOf, ContainerMetadataOf,
  PodSandboxMetadataOf,
}

-- A message without a peer in the other version, encoded as bytes.
abbrev pub Encoded : Type 0
Encoded = Text

-- An enumeration of proto3 can hold values without a name.
pub data NamespaceMode : Type 0 where
  pod container node : NamespaceMode
  other : ℕ → NamespaceMode

pub record NamespaceOption19 : Type 0 where
  pub host_network : Bool
  pub host_pid : Bool
  pub host_ipc : Bool

pub record NamespaceOption112 : Type 0 where
  pub network : NamespaceMode
  pub pid : NamespaceMode
  pub ipc : NamespaceMode

pub record LinuxSandboxSecurityContext19 : Type 0 where
  pub namespace_options : Option NamespaceOption19
  pub selinux_options : Option (SelinuxOptionOf cri19)
  pub run_as_user : Option (Int64ValueOf cri19)
  pub readonly_rootfs : Bool
  pub supplemental_groups : List ℤ
  pub privileged : Bool
  pub seccomp_profile_path : Text

pub record LinuxSandboxSecurityContext112 : Type 0 where
  pub namespace_options : Option NamespaceOption112
  pub selinux_options : Option (SelinuxOptionOf cri112)
  pub run_as_user : Option (Int64ValueOf cri112)
  pub run_as_group : Option (Int64ValueOf cri112)
  pub readonly_rootfs : Bool
  pub supplemental_groups : List ℤ
  pub privileged : Bool
  pub seccomp_profile_path : Text

pub record LinuxContainerSecurityContext19 : Type 0 where
  pub capabilities : Option (CapabilityOf cri19)
  pub privileged : Bool
  pub namespace_options : Option NamespaceOption19
  pub selinux_options : Option (SelinuxOptionOf cri19)
  pub run_as_user : Option (Int64ValueOf cri19)
  pub run_as_username : Text
  pub readonly_rootfs : Bool
  pub supplemental_groups : List ℤ
  pub apparmor_profile : Text
  pub seccomp_profile_path : Text
  pub no_new_privs : Bool

pub record LinuxContainerSecurityContext112 : Type 0 where
  pub capabilities : Option (CapabilityOf cri112)
  pub privileged : Bool
  pub namespace_options : Option NamespaceOption112
  pub selinux_options : Option (SelinuxOptionOf cri112)
  pub run_as_user : Option (Int64ValueOf cri112)
  pub run_as_group : Option (Int64ValueOf cri112)
  pub run_as_username : Text
  pub readonly_rootfs : Bool
  pub supplemental_groups : List ℤ
  pub apparmor_profile : Text
  pub seccomp_profile_path : Text
  pub no_new_privs : Bool
  pub masked_paths : List Text
  pub readonly_paths : List Text

pub record LinuxPodSandboxConfig19 : Type 0 where
  pub cgroup_parent : Text
  pub security_context : Option LinuxSandboxSecurityContext19
  pub sysctls : Annotations

pub record LinuxPodSandboxConfig112 : Type 0 where
  pub cgroup_parent : Text
  pub security_context : Option LinuxSandboxSecurityContext112
  pub sysctls : Annotations

pub record PodSandboxConfig19 : Type 0 where
  pub metadata : Option (PodSandboxMetadataOf cri19)
  pub hostname : Text
  pub log_directory : Text
  pub dns_config : Option (DnsConfigOf cri19)
  pub port_mappings : List (PortMappingOf cri19)
  pub labels : Annotations
  pub annotations : Annotations
  pub linux : Option LinuxPodSandboxConfig19

pub record PodSandboxConfig112 : Type 0 where
  pub metadata : Option (PodSandboxMetadataOf cri112)
  pub hostname : Text
  pub log_directory : Text
  pub dns_config : Option (DnsConfigOf cri112)
  pub port_mappings : List (PortMappingOf cri112)
  pub labels : Annotations
  pub annotations : Annotations
  pub linux : Option LinuxPodSandboxConfig112

pub record RunPodSandboxRequest19 : Type 0 where
  pub config : Option PodSandboxConfig19

pub record RunPodSandboxRequest112 : Type 0 where
  pub config : Option PodSandboxConfig112
  pub runtime_handler : Text

pub record PullImageRequest19 : Type 0 where
  pub image : Option (ImageSpecOf cri19)
  pub auth : Option (AuthConfigOf cri19)
  pub sandbox_config : Option PodSandboxConfig19

pub record PullImageRequest112 : Type 0 where
  pub image : Option (ImageSpecOf cri112)
  pub auth : Option (AuthConfigOf cri112)
  pub sandbox_config : Option PodSandboxConfig112

pub record LinuxContainerConfig19 : Type 0 where
  pub resources : Option (LinuxContainerResourcesOf cri19)
  pub security_context : Option LinuxContainerSecurityContext19

pub record LinuxContainerConfig112 : Type 0 where
  pub resources : Option (LinuxContainerResourcesOf cri112)
  pub security_context : Option LinuxContainerSecurityContext112

pub record ContainerConfig19 : Type 0 where
  pub metadata : Option (ContainerMetadataOf cri19)
  pub image : Option (ImageSpecOf cri19)
  pub command : List Text
  pub args : List Text
  pub working_dir : Text
  pub envs : List (KeyValueOf cri19)
  pub mounts : List (MountOf cri19)
  pub devices : List (DeviceOf cri19)
  pub labels : Annotations
  pub annotations : Annotations
  pub log_path : Text
  pub stdin : Bool
  pub stdin_once : Bool
  pub tty : Bool
  pub linux : Option LinuxContainerConfig19

pub record ContainerConfig112 : Type 0 where
  pub metadata : Option (ContainerMetadataOf cri112)
  pub image : Option (ImageSpecOf cri112)
  pub command : List Text
  pub args : List Text
  pub working_dir : Text
  pub envs : List (KeyValueOf cri112)
  pub mounts : List (MountOf cri112)
  pub devices : List (DeviceOf cri112)
  pub labels : Annotations
  pub annotations : Annotations
  pub log_path : Text
  pub stdin : Bool
  pub stdin_once : Bool
  pub tty : Bool
  pub linux : Option LinuxContainerConfig112
  pub windows : Option Encoded

pub record CreateContainerRequest19 : Type 0 where
  pub pod_sandbox_id : Text
  pub config : Option ContainerConfig19
  pub sandbox_config : Option PodSandboxConfig19

pub record CreateContainerRequest112 : Type 0 where
  pub pod_sandbox_id : Text
  pub config : Option ContainerConfig112
  pub sandbox_config : Option PodSandboxConfig112
