-- ===== src/Proxy/Probe.antt =====
-- checkVersion and checkConnection of pkg/proxy/apiclient.go: the choice of the client behind an
-- autoClient by what the runtime answers to the method Version.
pub mod Choice
use criproxy.Prelude.{Bool, true, false, Option, none, some, List, [], ◌∷◌, ◌++◌}
use criproxy.Text.{Text, codes}
use criproxy.Errors.{Error}
use criproxy.Proxy.World.{Version, cri19, cri112, Next, api_client, upgrading_client}
use criproxy.Proxy.Dispatch.{proto_package}

-- The method that checkVersion calls.
unfoldable pub version_method : Version → Text
version_method v = codes "/" ++ (proto_package v ++ (codes "." ++ codes "RuntimeService/Version"))

-- toTry and upgrade: only version 1.9 upgrades.
unfoldable pub to_try : Version → List (Version × Bool)
to_try cri19 = (cri112, true) ∷ (cri19, false) ∷ []
to_try cri112 = (cri112, false) ∷ []

abbrev pub client_of_version : Version × Bool → Next
client_of_version (v, true) = upgrading_client (api_client v)
client_of_version (v, false) = api_client v

-- `answers` is grpc.Invoke of a method with the probe's messages: its error, if there is one.
module _ (answers : Text → Option Error) where
  -- The loop, with the error so far: the client, if one is chosen, and the error returned.
  unfoldable pub check_from : List (Version × Bool) → Option Error → Option Next × Option Error
  check_from [] e = (none, e)
  check_from (t ∷ ts) e = elim (answers (version_method t.0)) [
    | none ↦ (some (client_of_version t), none)
    | some e' ↦ check_from ts (some e')
  ]

  unfoldable pub check_connection : Version → Option Next × Option Error
  unfolding check_from to_try
  check_connection v = check_from (to_try v) none
