-- ===== src/Object/Sandboxes.antt =====
-- pkg/proxy/cri19.go and pkg/proxy/cri110.go: the messages about the runtime and about pod sandboxes.
-- A record stands for the raw message in a wrapper of either version; a pointer is an Option.
use criproxy.Prelude.{Bool, Option, List}
use criproxy.Text.{Text}
use criproxy.Naming.{Annotations}
use criproxy.Object.Items.{Rest, PodSandbox, PodSandboxStatus}

pub record PodSandboxConfig : Type 0 where
  pub annotations : Annotations
  pub rest : Rest

pub record PodSandboxFilter : Type 0 where
  pub id : Text
  pub rest : Rest

pub record VersionRequest : Type 0 where
  pub version : Text

pub record VersionResponse : Type 0 where
  pub rest : Rest

pub record StatusRequest : Type 0 where
  pub verbose : Bool

pub record StatusResponse : Type 0 where
  pub rest : Rest

pub record UpdateRuntimeConfigRequest : Type 0 where
  pub rest : Rest

pub record UpdateRuntimeConfigResponse : Type 0 where

pub record RunPodSandboxRequest : Type 0 where
  pub config : Option PodSandboxConfig
  pub rest : Rest

pub record RunPodSandboxResponse : Type 0 where
  pub pod_sandbox_id : Text

pub record ListPodSandboxRequest : Type 0 where
  pub filter : Option PodSandboxFilter

pub record ListPodSandboxResponse : Type 0 where
  pub items : List PodSandbox

pub record StopPodSandboxRequest : Type 0 where
  pub pod_sandbox_id : Text

pub record StopPodSandboxResponse : Type 0 where

pub record RemovePodSandboxRequest : Type 0 where
  pub pod_sandbox_id : Text

pub record RemovePodSandboxResponse : Type 0 where

pub record PodSandboxStatusRequest : Type 0 where
  pub pod_sandbox_id : Text
  pub verbose : Bool

pub record PodSandboxStatusResponse : Type 0 where
  pub status : Option PodSandboxStatus
  pub rest : Rest

pub record PortForwardRequest : Type 0 where
  pub pod_sandbox_id : Text
  pub rest : Rest

pub record PortForwardResponse : Type 0 where
  pub url : Text
