-- ===== src/Proxy/Handlers/Sandbox.antt =====
-- The handlers of pkg/proxy/proxy.go for pod sandboxes.
pub mod Effects
use criproxy.Prelude.{ℕ, Option, none, some}
use criproxy.Text.{Text}
use criproxy.Naming.{ClientBase, augment_id}
use criproxy.Object.Requests.{Request, pod_sandbox_id?, set_pod_sandbox_id, annotations?}
use criproxy.Object.Responses.{Response, run_pod_sandbox_response, pod_sandbox_status_response}
use criproxy.Proxy.World.{M, ◌>>=◌, pure, assert}
use criproxy.Proxy.Client.{Env, invoke_with_error_handling}
use criproxy.Proxy.Routing.{RuntimeProxy, client_for_annotations, client_for_id}
use criproxy.Proxy.Handlers.Common.{with_client, fix_response_url}

abbrev pub augment_pod_sandbox_id : ClientBase → Response → Option Response
augment_pod_sandbox_id c (run_pod_sandbox_response out) =
    some (run_pod_sandbox_response (record { pod_sandbox_id = augment_id c out.pod_sandbox_id }))
augment_pod_sandbox_id c _ = none

abbrev pub augment_status : ClientBase → Response → Option Response
augment_status c (pod_sandbox_status_response out) = elim out.status [
  | none ↦ some (pod_sandbox_status_response out)
  | some status ↦ some (
      pod_sandbox_status_response
        (record out { status = some (record status { id = augment_id c status.id }) }))
]
augment_status c _ = none

module _ (env : Env) (r : RuntimeProxy) (method : Text) where
  -- The client that was asked, and the response.
  unfoldable pub invoke_pod_sandbox_method : Request → Response → M (ℕ × Response)
  invoke_pod_sandbox_method req resp = do
    id ← assert (pod_sandbox_id? req)
    (i, unprefixed) ← client_for_id r id
    resp' ← invoke_with_error_handling env i method (set_pod_sandbox_id unprefixed req) resp
    pure (i, resp')

  unfoldable pub run_pod_sandbox : Request → Response → M Response
  run_pod_sandbox req resp = do
    annotations ← assert (annotations? req)
    i ← client_for_annotations r annotations
    resp' ← invoke_with_error_handling env i method req resp
    out ← with_client r i (λ c. augment_pod_sandbox_id c resp')
    assert out

  unfoldable pub handle_pod_sandbox : Request → Response → M Response
  handle_pod_sandbox req resp = do
    (i, resp') ← invoke_pod_sandbox_method req resp
    pure (fix_response_url env resp')

  unfoldable pub pod_sandbox_status : Request → Response → M Response
  pod_sandbox_status req resp = do
    (i, resp') ← invoke_pod_sandbox_method req resp
    out ← with_client r i (λ c. augment_status c resp')
    assert out
