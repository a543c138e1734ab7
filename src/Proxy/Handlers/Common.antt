-- ===== src/Proxy/Handlers/Common.antt =====
-- pkg/proxy/proxy.go: what the handlers share, passToPrimary and updateRuntimeConfig. A response is
-- the empty one that came with the wrapped request; a client is its place in the list.
pub mod Ends
pub mod Update
use criproxy.Prelude.{
  ℕ, suc, true, false, not, ◌&&◌, none, some, List, [], ◌∷◌, ◌++◌, if◌then◌else◌, get_elem?,
}
use criproxy.Text.{Text, codes, has_prefix, contains}
use criproxy.Errors.{Error, join}
use criproxy.Naming.{ClientBase}
use criproxy.Object.Requests.{Request}
use criproxy.Object.Responses.{Response, url?, set_url}
use criproxy.Proxy.World.{M, ◌>>=◌, pure, fail, assert}
use criproxy.Proxy.Client.{
  Env, connect_client, is_client_up, handle_client_error, invoke, invoke_with_error_handling,
}
use criproxy.Proxy.Routing.{RuntimeProxy, clients, primary_client}

-- The methods of a client at its place, for what it does to names.
abbrev pub with_client : {A : Type 0} → RuntimeProxy → ℕ → (ClientBase → A) → M A
with_client r i f = assert (elim (get_elem? (clients r) i) [ none ↦ none | some c ↦ some (f c) ])

module _ (env : Env) where
  unfoldable pub fix_streaming_url : Text → Text
  fix_streaming_url url =
      if has_prefix url (codes "/") && not (contains url (codes ":"))
      then env.stream_url url
      else url

  -- The URL of a response that has one.
  unfoldable pub fix_response_url : Response → Response
  fix_response_url resp = elim (url? resp) [
    | none ↦ resp
    | some url ↦ set_url (fix_streaming_url url) resp
  ]

module _ (env : Env) (r : RuntimeProxy) (method : Text) where
  unfoldable pub pass_to_primary : Request → Response → M Response
  pass_to_primary req resp = do i ← primary_client; invoke_with_error_handling env i method req resp

  -- The loop of updateRuntimeConfig from the i-th client on, with the errors so far.
  unfoldable pub update_runtime_config_from :
      ℕ → List ClientBase → Request → Response → List Error → M (Response × List Error)
  update_runtime_config_from i [] req resp errs = pure (resp, errs)
  update_runtime_config_from i (c ∷ cs) req resp errs = do
    up ← is_client_up i
    elim up [
      | false ↦ do _ ← connect_client i; update_runtime_config_from (suc i) cs req resp errs
      | true ↦ do
        (resp', e) ← invoke env i method req resp
        elim e [
          | none ↦ update_runtime_config_from (suc i) cs req resp' errs
          | some x ↦ do
            left ← handle_client_error i x false
            y ← assert left
            update_runtime_config_from (suc i) cs req resp' (errs ++ (y ∷ []))
        ]
    ]

  abbrev pub end_update : Response × List Error → M Response
  end_update (resp, []) = pure resp
  end_update (resp, e ∷ es) = fail (join e es)

  unfoldable pub update_runtime_config : Request → Response → M Response
  update_runtime_config req resp = do
    out ← update_runtime_config_from 0 (clients r) req resp []
    end_update out
