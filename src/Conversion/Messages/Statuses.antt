-- ===== src/Conversion/Messages/Statuses.antt =====
-- The messages of both versions about what a runtime uses and about the state of a sandbox.
use criproxy.Prelude.{ℤ, Option, List}
use criproxy.Text.{Text}
use criproxy.Naming.{Annotations}
use criproxy.Proxy.World.{cri19, cri112}
use criproxy.Conversion.Messages.{NamespaceOption19, NamespaceOption112}
use criproxy.Conversion.Same.Values.{Uint64ValueOf, PodSandboxMetadataOf}
use criproxy.Conversion.Same.Stats.{ContainerAttributesOf, CpuUsageOf, MemoryUsageOf}
use criproxy.Conversion.Same.Sandboxes.{PodSandboxNetworkStatusOf}

pub record StorageIdentifier : Type 0 where
  pub uuid : Text

pub record FilesystemIdentifier : Type 0 where
  pub mountpoint : Text

pub record FilesystemUsage19 : Type 0 where
  pub timestamp : ℤ
  pub storage_id : Option StorageIdentifier
  pub used_bytes : Option (Uint64ValueOf cri19)
  pub inodes_used : Option (Uint64ValueOf cri19)

pub record FilesystemUsage112 : Type 0 where
  pub timestamp : ℤ
  pub fs_id : Option FilesystemIdentifier
  pub used_bytes : Option (Uint64ValueOf cri112)
  pub inodes_used : Option (Uint64ValueOf cri112)

pub record ContainerStats19 : Type 0 where
  pub attributes : Option (ContainerAttributesOf cri19)
  pub cpu : Option (CpuUsageOf cri19)
  pub memory : Option (MemoryUsageOf cri19)
  pub writable_layer : Option FilesystemUsage19

pub record ContainerStats112 : Type 0 where
  pub attributes : Option (ContainerAttributesOf cri112)
  pub cpu : Option (CpuUsageOf cri112)
  pub memory : Option (MemoryUsageOf cri112)
  pub writable_layer : Option FilesystemUsage112

pub record ContainerStatsResponse19 : Type 0 where
  pub stats : Option ContainerStats19

pub record ContainerStatsResponse112 : Type 0 where
  pub stats : Option ContainerStats112

pub record ListContainerStatsResponse19 : Type 0 where
  pub stats : List ContainerStats19

pub record ListContainerStatsResponse112 : Type 0 where
  pub stats : List ContainerStats112

pub record ImageFsInfoResponse19 : Type 0 where
  pub image_filesystems : List FilesystemUsage19

pub record ImageFsInfoResponse112 : Type 0 where
  pub image_filesystems : List FilesystemUsage112

pub record Namespace19 : Type 0 where
  pub options : Option NamespaceOption19

pub record Namespace112 : Type 0 where
  pub options : Option NamespaceOption112

pub record LinuxPodSandboxStatus19 : Type 0 where
  pub namespaces : Option Namespace19

pub record LinuxPodSandboxStatus112 : Type 0 where
  pub namespaces : Option Namespace112

pub record PodSandboxStatus19 : Type 0 where
  pub id : Text
  pub metadata : Option (PodSandboxMetadataOf cri19)
  pub state : ℤ
  pub created_at : ℤ
  pub network : Option (PodSandboxNetworkStatusOf cri19)
  pub linux : Option LinuxPodSandboxStatus19
  pub labels : Annotations
  pub annotations : Annotations

pub record PodSandboxStatus112 : Type 0 where
  pub id : Text
  pub metadata : Option (PodSandboxMetadataOf cri112)
  pub state : ℤ
  pub created_at : ℤ
  pub network : Option (PodSandboxNetworkStatusOf cri112)
  pub linux : Option LinuxPodSandboxStatus112
  pub labels : Annotations
  pub annotations : Annotations

pub record PodSandboxStatusResponse19 : Type 0 where
  pub status : Option PodSandboxStatus19
  pub info : Annotations

pub record PodSandboxStatusResponse112 : Type 0 where
  pub status : Option PodSandboxStatus112
  pub info : Annotations
