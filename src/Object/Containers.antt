-- ===== src/Object/Containers.antt =====
-- pkg/proxy/cri19.go and pkg/proxy/cri110.go: the messages about containers.
-- A record stands for the raw message in a wrapper of either version; a pointer is an Option.
use criproxy.Prelude.{Bool, Option, List}
use criproxy.Text.{Text}
use criproxy.Object.Items.{Rest, ImageSpec, Container, ContainerStatus, ContainerStats}

pub record ContainerConfig : Type 0 where
  pub image : Option ImageSpec
  pub rest : Rest

pub record ContainerFilter : Type 0 where
  pub id : Text
  pub pod_sandbox_id : Text
  pub rest : Rest

pub record ContainerStatsFilter : Type 0 where
  pub id : Text
  pub pod_sandbox_id : Text
  pub rest : Rest

pub record CreateContainerRequest : Type 0 where
  pub pod_sandbox_id : Text
  pub config : Option ContainerConfig
  pub rest : Rest

pub record CreateContainerResponse : Type 0 where
  pub container_id : Text

pub record ListContainersRequest : Type 0 where
  pub filter : Option ContainerFilter

pub record ListContainersResponse : Type 0 where
  pub containers : List Container

pub record ListContainerStatsRequest : Type 0 where
  pub filter : Option ContainerStatsFilter

pub record ListContainerStatsResponse : Type 0 where
  pub stats : List ContainerStats

pub record StartContainerRequest : Type 0 where
  pub container_id : Text

pub record StartContainerResponse : Type 0 where

pub record StopContainerRequest : Type 0 where
  pub container_id : Text
  pub timeout : Rest

pub record StopContainerResponse : Type 0 where

pub record RemoveContainerRequest : Type 0 where
  pub container_id : Text

pub record RemoveContainerResponse : Type 0 where

pub record ContainerStatusRequest : Type 0 where
  pub container_id : Text
  pub verbose : Bool

pub record ContainerStatusResponse : Type 0 where
  pub status : Option ContainerStatus
  pub rest : Rest

pub record ContainerStatsRequest : Type 0 where
  pub container_id : Text

pub record ContainerStatsResponse : Type 0 where
  pub stats : Option ContainerStats

pub record UpdateContainerResourcesRequest : Type 0 where
  pub container_id : Text
  pub rest : Rest

pub record UpdateContainerResourcesResponse : Type 0 where

pub record ReopenContainerLogRequest : Type 0 where
  pub container_id : Text

pub record ReopenContainerLogResponse : Type 0 where

pub record ExecSyncRequest : Type 0 where
  pub container_id : Text
  pub rest : Rest

pub record ExecSyncResponse : Type 0 where
  pub rest : Rest

pub record ExecRequest : Type 0 where
  pub container_id : Text
  pub stdout : Bool
  pub stderr : Bool
  pub rest : Rest

pub record ExecResponse : Type 0 where
  pub url : Text

pub record AttachRequest : Type 0 where
  pub container_id : Text
  pub stdout : Bool
  pub stderr : Bool
  pub rest : Rest

pub record AttachResponse : Type 0 where
  pub url : Text
