-- ===== src/Object/Items.antt =====
-- pkg/proxy/cri19.go and pkg/proxy/cri110.go: the objects that CRI lists and statuses hold.
-- A record stands for the raw message in a wrapper of either version; a pointer is an Option.
use criproxy.Prelude.{ℕ, Option, none, some, List, []}
use criproxy.Text.{Text}

-- What a message holds beside the fields that the proxy reads or writes, encoded as bytes.
abbrev pub Rest : Type 0
Rest = List ℕ

pub record ImageSpec : Type 0 where
  pub image : Text

pub record ContainerAttributes : Type 0 where
  pub id : Text
  pub rest : Rest

pub record PodSandbox : Type 0 where
  pub id : Text
  pub rest : Rest

pub record Container : Type 0 where
  pub id : Text
  pub pod_sandbox_id : Text
  pub image : Option ImageSpec
  pub rest : Rest

pub record Image : Type 0 where
  pub id : Text
  pub repo_tags : List Text
  pub repo_digests : List Text
  pub rest : Rest

pub record PodSandboxStatus : Type 0 where
  pub id : Text
  pub rest : Rest

pub record ContainerStatus : Type 0 where
  pub id : Text
  pub image : Option ImageSpec
  pub rest : Rest

pub record ContainerStats : Type 0 where
  pub attributes : Option ContainerAttributes
  pub rest : Rest

pub record FilesystemUsage : Type 0 where
  pub rest : Rest

-- Id of a ContainerStats; nil attributes read as the empty id.
unfoldable pub container_stats_id : ContainerStats → Text
container_stats_id s = elim s.attributes [ none ↦ [] | some a ↦ a.id ]

unfoldable pub set_container_stats_id : Text → ContainerStats → ContainerStats
set_container_stats_id id s = elim s.attributes [
  | none ↦ record s { attributes = some (record { id = id; rest = [] }) }
  | some a ↦ record s { attributes = some (record a { id = id }) }
]
