-- ===== src/Tests/Registry.antt =====
-- A registry of the types of both versions, and messages that Upgrade and Downgrade convert with it.
use mathlib.Core.Option
use criproxy.Prelude.{
  ◌≡◌, ◌↔◌, ◌≢◌, Bool, refl, true, false, Option, none, some, List, [], ◌∷◌, drop, inl, inr, ◌⊎◌,
  arith, if◌then◌else◌, pos,
}
use criproxy.Text.{Text, codes, text_eq, text_eq_refl, has_prefix}
use criproxy.Proxy.World.{Version, cri19, cri112}
use criproxy.Proxy.Dispatch.{proto_package}
use criproxy.Conversion.Same.All.{SameMessage}
use criproxy.Conversion.Messages.{NamespaceMode}
use criproxy.Conversion.All.{Message19, Message112, upgrade_message, downgrade_message}
use criproxy.Conversion.All.Back.{
  HasNoStorage, downgrade_message-upgrade, IsOld, upgrade_message-downgrade,
}
use criproxy.Conversion.Names.{same_name, name19, name112}
use criproxy.Conversion.ConvertTo.{
  Any, old, new, GoType, ConvertError, conversion_failed, same_type, full_name, upgrade, downgrade,
}
use criproxy.Conversion.ConvertTo.Answers.{Knows, Runs, downgraded, convert_to_cases}

abbrev reopens : List Text
reopens = codes "ReopenContainerLogRequest" ∷ codes "ReopenContainerLogResponse" ∷ []

abbrev mem : Text → List Text → Bool
mem t [] = false
mem t (u ∷ us) = if text_eq t u then true else mem t us

registry : Text → Option GoType
unfolding has_prefix text_eq
registry full =
    if has_prefix full (codes "runtime.v1alpha2.")
    then some (record { version = cri112; name = drop 17 full })
    else if mem (drop 8 full) reopens
    then none
    else some (record { version = cri19; name = drop 8 full })

registry-same :
    {v : Version} (w : Version) (m : SameMessage v)
    → registry (full_name w (same_name m)) ≡ some (record { version = w; name = same_name m })
unfolding registry full_name proto_package same_name
registry-same cri19 (SameMessage.attach_request m) = refl
registry-same cri19 _ = refl
registry-same cri112 (SameMessage.attach_request m) = refl
registry-same cri112 _ = refl

registry-name19 :
    (w : Version) (m : Message19)
    → registry (full_name w (name19 m)) ≡ some (record { version = w; name = name19 m })
unfolding registry full_name proto_package name19
registry-name19 w (Message19.same m) = registry-same w m
registry-name19 cri19 (Message19.run_pod_sandbox_request m) = refl
registry-name19 cri19 _ = refl
registry-name19 cri112 (Message19.run_pod_sandbox_request m) = refl
registry-name19 cri112 _ = refl

registry-new :
    (m : Message112)
    → registry (full_name cri112 (name112 m)) ≡ some (record { version = cri112; name = name112 m })
unfolding registry full_name proto_package name112
registry-new (Message112.same m) = registry-same cri112 m
registry-new _ = refl

registry-downgraded :
    (m : Message112)
    → registry (full_name cri19 (name112 m)) ≡ elim (downgrade_message m) [
      | none ↦ none
      | some m' ↦ some (record { version = cri19; name = name112 m })
    ]
unfolding registry full_name proto_package name112 downgrade_message
registry-downgraded (Message112.same m) = registry-same cri19 m
registry-downgraded _ = refl

registry-Knows : Knows registry
registry-Knows = record {
  old_types = registry-name19 cri19;
  upgraded_types = registry-name19 cri112;
  new_types = registry-new;
  downgraded_types = registry-downgraded;
}

abbrev scheme : Any → GoType → ConvertError ⊎ Any
scheme (old m) t =
    if same_type (record { version = cri112; name = name19 m }) t
    then inr (new (upgrade_message m))
    else inl (conversion_failed [])
scheme (new m) t =
    if same_type (record { version = cri19; name = name112 m }) t
    then elim (downgrade_message m) [ some m' ↦ inr (old m') | none ↦ inl (conversion_failed []) ]
    else inl (conversion_failed [])

scheme-Runs : Runs scheme
unfolding same_type
scheme-Runs = record {
  upgrades = λ m. ground (arith, text_eq_refl (name19 m));
  downgrades = λ m m' e. ground (arith, text_eq_refl (name112 m));
}

-- The use of a file system, whose storage version 1.12 does not know.
abbrev fs_info : Message19
fs_info = Message19.image_fs_info_response (record {
  image_filesystems =
      record {
        timestamp = pos 5;
        storage_id = some (record { uuid = codes "u" });
        used_bytes = some (record { value = 7 });
        inodes_used = none;
      }
      ∷ [];
})

abbrev reopen : Message112
reopen = Message112.reopen_container_log_request (codes "c1")

convert_to_cases_example :
    (upgrade registry scheme (old fs_info) ≡ inr (new (upgrade_message fs_info)))
    × (upgrade registry scheme (new reopen) ≡ inr (new reopen))
    × (downgrade registry scheme (old fs_info) ≡ inr (old fs_info))
    × (downgrade registry scheme (new reopen) ≡ downgraded reopen)
convert_to_cases_example =
    convert_to_cases registry scheme registry-Knows scheme-Runs fs_info reopen

downgrade_message-upgrade_example :
    (downgrade_message (upgrade_message fs_info) ≡ some fs_info) ↔ HasNoStorage fs_info
downgrade_message-upgrade_example = downgrade_message-upgrade fs_info

lost_storage_test : downgrade_message (upgrade_message fs_info) ≢ some fs_info
lost_storage_test e = let k = downgrade_message-upgrade_example.0 e in cc

-- A status with the processes of its container, which version 1.9 does not know.
abbrev status : Message112
status = Message112.pod_sandbox_status_response (record {
  status = some (record {
    id = codes "s1";
    metadata = none;
    state = pos 0;
    created_at = pos 3;
    network = some (record { ip = codes "10.0.0.1" });
    linux = some (record {
      namespaces = some (record {
        options = some (record {
          network = NamespaceMode.pod;
          pid = NamespaceMode.container;
          ipc = NamespaceMode.pod;
        });
      });
    });
    labels = [];
    annotations = [];
  });
  info = [];
})

upgrade_message-downgrade_example :
    (Option.map upgrade_message (downgrade_message status) ≡ some status) ↔ IsOld status
upgrade_message-downgrade_example = upgrade_message-downgrade status
