-- ===== src/Conversion/ConvertTo/Answers.antt =====
-- What Upgrade and Downgrade answer to every message of both versions.
use criproxy.Prelude.{◌≡◌, Option, Option-cases, none, some, ◌⊎◌, inl, inr, arith}
use criproxy.Text.{Text, text_eq_refl}
use criproxy.Proxy.World.{cri19, cri112}
use criproxy.Proxy.Dispatch.{proto_package}
use criproxy.Conversion.All.{Message19, Message112, upgrade_message, downgrade_message}
use criproxy.Conversion.Names.{name19, name112}
use criproxy.Conversion.ConvertTo.{
  Any, old, new, GoType, ConvertError, type_not_found, full_name, upgrade, downgrade,
}

-- The registry finds the types of the messages by their full names, and none of version 1.9 for a
-- message that only version 1.12 has.
pub record Knows (message_type : Text → Option GoType) : Type 0 where
  pub old_types :
      (m : Message19)
      → message_type (full_name cri19 (name19 m))
        ≡ some (record { version = cri19; name = name19 m })
  pub upgraded_types :
      (m : Message19)
      → message_type (full_name cri112 (name19 m))
        ≡ some (record { version = cri112; name = name19 m })
  pub new_types :
      (m : Message112)
      → message_type (full_name cri112 (name112 m))
        ≡ some (record { version = cri112; name = name112 m })
  pub downgraded_types :
      (m : Message112)
      → message_type (full_name cri19 (name112 m)) ≡ elim (downgrade_message m) [
        | none ↦ none
        | some m' ↦ some (record { version = cri19; name = name112 m })
      ]

-- The scheme runs the functions that are registered for the types.
pub record Runs (scheme_convert : Any → GoType → ConvertError ⊎ Any) : Type 0 where
  pub upgrades :
      (m : Message19)
      → scheme_convert (old m) (record { version = cri112; name = name19 m })
        ≡ inr (new (upgrade_message m))
  pub downgrades :
      (m : Message112) (m' : Message19)
      → downgrade_message m ≡ some m'
      → scheme_convert (new m) (record { version = cri19; name = name112 m }) ≡ inr (old m')

-- The downgraded message, or the error that there is no type for it.
abbrev pub downgraded : Message112 → ConvertError ⊎ Any
downgraded m = elim (downgrade_message m) [
  | none ↦
      inl (type_not_found (record { version = cri112; name = name112 m }) (proto_package cri19))
  | some m' ↦ inr (old m')
]

module _ (t : Text → Option GoType) (c : Any → GoType → ConvertError ⊎ Any) (k : Knows t)
    (r : Runs c) where
  upgrade-old : (m : Message19) → upgrade t c (old m) ≡ inr (new (upgrade_message m))
  unfolding upgrade
  upgrade-old m = ground (arith, k.upgraded_types m, text_eq_refl (name19 m), r.upgrades m)

  upgrade-new : (m : Message112) → upgrade t c (new m) ≡ inr (new m)
  unfolding upgrade
  upgrade-new m = ground (arith, k.new_types m, text_eq_refl (name112 m))

  downgrade-old : (m : Message19) → downgrade t c (old m) ≡ inr (old m)
  unfolding downgrade
  downgrade-old m = ground (arith, k.old_types m, text_eq_refl (name19 m))

  downgrade-new : (m : Message112) → downgrade t c (new m) ≡ downgraded m
  unfolding downgrade
  downgrade-new m = elim (Option-cases (downgrade_message m)) [
    | inl e ↦ ground (arith, k.downgraded_types m)
    | inr (m', e) ↦ ground (arith, k.downgraded_types m, r.downgrades m m' e)
  ]

-- With the registry of both versions and the scheme of their conversions, Upgrade converts a message of
-- version 1.9 and leaves one of version 1.12 as it is; Downgrade leaves one of version 1.9 as it is, and
-- converts one of version 1.12, with an error for the two that version 1.9 does not know.
pub convert_to_cases :
    (t : Text → Option GoType) (c : Any → GoType → ConvertError ⊎ Any)
    → Knows t
    → Runs c
    → (m : Message19) (n : Message112)
    → (upgrade t c (old m) ≡ inr (new (upgrade_message m)))
      × (upgrade t c (new n) ≡ inr (new n))
      × (downgrade t c (old m) ≡ inr (old m))
      × (downgrade t c (new n) ≡ downgraded n)
convert_to_cases t c k r m n =
    (upgrade-old t c k r m, upgrade-new t c k r n, downgrade-old t c k r m, downgrade-new t c k r n)
