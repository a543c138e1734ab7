-- ===== src/Conversion/ConvertTo.antt =====
-- convertTo, Upgrade and Downgrade of pkg/runtimeapis/convert.go. Parameters are
-- the registry of protocol buffers, whose MessageType finds a type by its full name, and Convert of the
-- scheme of pkg/runtimeapis/v1_9/conversion.go.
pub mod Answers
use criproxy.Prelude.{
  Bool, true, false, ◌&&◌, Option, none, some, ◌++◌, ◌⊎◌, inl, inr, if◌then◌else◌,
}
use criproxy.Text.{Text, codes, text_eq}
use criproxy.Proxy.World.{is_version, Version, cri19, cri112}
use criproxy.Proxy.Dispatch.{proto_package}
use criproxy.Conversion.All.{Message19, Message112, upgrade_message, downgrade_message}
use criproxy.Conversion.Names.{name19, name112}

-- A pointer to a message of a type of one of the two packages.
pub data Any : Type 0 where
  old : Message19 → Any
  new : Message112 → Any

-- A Go type: its package and its name.
pub record GoType : Type 0 where
  pub version : Version
  pub name : Text

pub data ConvertError : Type 0 where
  -- "target type for %T not found in proto package %q"
  type_not_found : GoType → Text → ConvertError
  -- an error of the scheme
  conversion_failed : Text → ConvertError

unfoldable pub type_of : Any → GoType
type_of (old m) = record { version = cri19; name = name19 m }
type_of (new m) = record { version = cri112; name = name112 m }

unfoldable pub same_type : GoType → GoType → Bool
unfolding is_version
same_type t u = is_version t.version u.version && text_eq t.name u.name

unfoldable pub full_name : Version → Text → Text
full_name v name = proto_package v ++ (codes "." ++ name)

module _ (message_type : Text → Option GoType)
    (scheme_convert : Any → GoType → ConvertError ⊎ Any) where
  unfoldable pub convert_to : Any → Version → ConvertError ⊎ Any
  unfolding same_type type_of full_name
  convert_to in_ v = elim (message_type (full_name v (type_of in_).name)) [
    | none ↦ inl (type_not_found (type_of in_) (proto_package v))
    | some t ↦ if same_type (type_of in_) t then inr in_ else scheme_convert in_ t
  ]

  unfoldable pub upgrade : Any → ConvertError ⊎ Any
  unfolding convert_to
  upgrade m = convert_to m cri112

  unfoldable pub downgrade : Any → ConvertError ⊎ Any
  unfolding convert_to
  downgrade m = convert_to m cri19
