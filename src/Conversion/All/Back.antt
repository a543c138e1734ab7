-- ===== src/Conversion/All/Back.antt =====
-- Which messages of either version come back as they were.
use mathlib.Core.Option
use criproxy.Prelude.{some, ◌≡◌, ap, ◌↔◌}
use criproxy.Proxy.World.{cri19, cri112}
use criproxy.Conversion.RoundTrip.{
  downgrade_run_pod_sandbox_request-upgrade, downgrade_pull_image_request-upgrade,
  downgrade_create_container_request-upgrade,
}
use criproxy.Conversion.Loss.{
  RunRequestIsOld, run_pod_sandbox_request_iff, PullRequestIsOld, pull_image_request_iff,
}
use criproxy.Conversion.Loss.Container.{CreateRequestIsOld, create_container_request_iff}
use criproxy.Conversion.Same.All.RoundTrip.{convert_same-convert}
use criproxy.Conversion.All.{Message19, Message112, upgrade_message, downgrade_message}
use criproxy.Conversion.RoundTrip.Statuses.{
  StatsResponseHasNoStorage, container_stats_response_storage_iff, StatsListHasNoStorage,
  list_container_stats_response_storage_iff, FsInfoHasNoStorage, image_fs_info_response_storage_iff,
  downgrade_pod_sandbox_status_response-upgrade,
}
use criproxy.Conversion.Loss.Statuses.{StatusResponseIsOld, pod_sandbox_status_response_iff}
use criproxy.Conversion.Loss.Stats.{
  StatsResponseIsOld, container_stats_response_iff, StatsListIsOld,
  list_container_stats_response_iff, FsInfoIsOld, image_fs_info_response_iff,
}

-- The message holds no identity of the storage behind a file system.
abbrev pub HasNoStorage : Message19 → Type 0
HasNoStorage (Message19.same m) = Unit {0}
HasNoStorage (Message19.container_stats_response m) = StatsResponseHasNoStorage m
HasNoStorage (Message19.create_container_request m) = Unit {0}
HasNoStorage (Message19.image_fs_info_response m) = FsInfoHasNoStorage m
HasNoStorage (Message19.list_container_stats_response m) = StatsListHasNoStorage m
HasNoStorage (Message19.pod_sandbox_status_response m) = Unit {0}
HasNoStorage (Message19.pull_image_request m) = Unit {0}
HasNoStorage (Message19.run_pod_sandbox_request m) = Unit {0}

-- A message of version 1.9 is what it was, when it is upgraded and downgraded again, exactly if it holds
-- no identity of the storage behind a file system.
pub downgrade_message-upgrade :
    (m : Message19) → (downgrade_message (upgrade_message m) ≡ some m) ↔ HasNoStorage m
unfolding downgrade_message upgrade_message
downgrade_message-upgrade (Message19.same m) =
    (λ e. tt, λ k. ap (λ x. some (Message19.same x)) (convert_same-convert cri112 m))
downgrade_message-upgrade (Message19.container_stats_response m) = (
  λ e. (container_stats_response_storage_iff m).0 (cc),
  λ k.
      ap (λ x. some (Message19.container_stats_response x))
        ((container_stats_response_storage_iff m).1 k),
)
downgrade_message-upgrade (Message19.create_container_request m) = (
  λ e. tt,
  λ k.
      ap (λ x. some (Message19.create_container_request x))
        (downgrade_create_container_request-upgrade m),
)
downgrade_message-upgrade (Message19.image_fs_info_response m) = (
  λ e. (image_fs_info_response_storage_iff m).0 (cc),
  λ k.
      ap (λ x. some (Message19.image_fs_info_response x))
        ((image_fs_info_response_storage_iff m).1 k),
)
downgrade_message-upgrade (Message19.list_container_stats_response m) = (
  λ e. (list_container_stats_response_storage_iff m).0 (cc),
  λ k.
      ap (λ x. some (Message19.list_container_stats_response x))
        ((list_container_stats_response_storage_iff m).1 k),
)
downgrade_message-upgrade (Message19.pod_sandbox_status_response m) = (
  λ e. tt,
  λ k.
      ap (λ x. some (Message19.pod_sandbox_status_response x))
        (downgrade_pod_sandbox_status_response-upgrade m),
)
downgrade_message-upgrade (Message19.pull_image_request m) = (
  λ e. tt,
  λ k. ap (λ x. some (Message19.pull_image_request x)) (downgrade_pull_image_request-upgrade m),
)
downgrade_message-upgrade (Message19.run_pod_sandbox_request m) = (
  λ e. tt,
  λ k.
      ap (λ x. some (Message19.run_pod_sandbox_request x))
        (downgrade_run_pod_sandbox_request-upgrade m),
)

-- The message has nothing that version 1.9 does not know.
abbrev pub IsOld : Message112 → Type 0
IsOld (Message112.same m) = Unit {0}
IsOld (Message112.container_stats_response m) = StatsResponseIsOld m
IsOld (Message112.create_container_request m) = CreateRequestIsOld m
IsOld (Message112.image_fs_info_response m) = FsInfoIsOld m
IsOld (Message112.list_container_stats_response m) = StatsListIsOld m
IsOld (Message112.pod_sandbox_status_response m) = StatusResponseIsOld m
IsOld (Message112.pull_image_request m) = PullRequestIsOld m
IsOld (Message112.run_pod_sandbox_request m) = RunRequestIsOld m
IsOld (Message112.reopen_container_log_request m) = ⊥
IsOld Message112.reopen_container_log_response = ⊥

-- A message of version 1.12 is what it was, when it is downgraded and upgraded again, exactly if it holds
-- no identity of a file system, no runtime handler, no group to run as, no masked or read-only paths, no
-- configuration for Windows and no namespace but the pod's and the node's, and is not of
-- ReopenContainerLog.
pub upgrade_message-downgrade :
    (m : Message112) → (Option.map upgrade_message (downgrade_message m) ≡ some m) ↔ IsOld m
unfolding downgrade_message upgrade_message
upgrade_message-downgrade (Message112.same m) =
    (λ e. tt, λ k. ap (λ x. some (Message112.same x)) (convert_same-convert cri19 m))
upgrade_message-downgrade (Message112.container_stats_response m) = (
  λ e. (container_stats_response_iff m).0 (cc),
  λ k.
      ap (λ x. some (Message112.container_stats_response x)) ((container_stats_response_iff m).1 k),
)
upgrade_message-downgrade (Message112.create_container_request m) = (
  λ e. (create_container_request_iff m).0 (cc),
  λ k.
      ap (λ x. some (Message112.create_container_request x)) ((create_container_request_iff m).1 k),
)
upgrade_message-downgrade (Message112.image_fs_info_response m) = (
  λ e. (image_fs_info_response_iff m).0 (cc),
  λ k. ap (λ x. some (Message112.image_fs_info_response x)) ((image_fs_info_response_iff m).1 k),
)
upgrade_message-downgrade (Message112.list_container_stats_response m) = (
  λ e. (list_container_stats_response_iff m).0 (cc),
  λ k.
      ap (λ x. some (Message112.list_container_stats_response x))
        ((list_container_stats_response_iff m).1 k),
)
upgrade_message-downgrade (Message112.pod_sandbox_status_response m) = (
  λ e. (pod_sandbox_status_response_iff m).0 (cc),
  λ k.
      ap (λ x. some (Message112.pod_sandbox_status_response x))
        ((pod_sandbox_status_response_iff m).1 k),
)
upgrade_message-downgrade (Message112.pull_image_request m) = (
  λ e. (pull_image_request_iff m).0 (cc),
  λ k. ap (λ x. some (Message112.pull_image_request x)) ((pull_image_request_iff m).1 k),
)
upgrade_message-downgrade (Message112.run_pod_sandbox_request m) = (
  λ e. (run_pod_sandbox_request_iff m).0 (cc),
  λ k. ap (λ x. some (Message112.run_pod_sandbox_request x)) ((run_pod_sandbox_request_iff m).1 k),
)
upgrade_message-downgrade (Message112.reopen_container_log_request m) = (λ e. cc, λ k. absurd k)
upgrade_message-downgrade Message112.reopen_container_log_response = (λ e. cc, λ k. absurd k)
