-- ===== src/Proxy/Handlers/Container.antt =====
-- The handlers of pkg/proxy/proxy.go for containers.
pub mod Effects
pub mod Create
use criproxy.Prelude.{ℕ, false, Option, none, some, [], if◌then◌else◌, ◌==◌}
use criproxy.Text.{Text, text_eq}
use criproxy.Errors.{no_image_specified, wrong_runtime}
use criproxy.Naming.{ClientBase, image_name, augment_id}
use criproxy.Object.Items.{container_stats_id, set_container_stats_id}
use criproxy.Object.Requests.{
  Request, pod_sandbox_id?, set_pod_sandbox_id, container_id?, set_container_id, image?, set_image,
  get_image,
}
use criproxy.Object.Responses.{
  Response, create_container_response, container_status_response, container_stats_response,
}
use criproxy.Proxy.World.{M, ◌>>=◌, pure, fail, assert}
use criproxy.Proxy.Client.{Env, invoke_with_error_handling}
use criproxy.Proxy.Routing.{RuntimeProxy, client_for_id, client_for_image}
use criproxy.Proxy.Handlers.Common.{with_client, fix_response_url}

abbrev pub augment_container_id : ClientBase → Response → Option Response
augment_container_id c (create_container_response out) =
    some (create_container_response (record { container_id = augment_id c out.container_id }))
augment_container_id c _ = none

abbrev pub augment_container_status : ClientBase → Response → Option Response
augment_container_status c (container_status_response out) = elim out.status [
  | none ↦ some (container_status_response out)
  | some status ↦ some (
      container_status_response (record out {
        status = some (record status {
          id = augment_id c status.id;
          image = some (record { image = image_name c (get_image status.image) });
        });
      }))
]
augment_container_status c _ = none

abbrev pub augment_container_stats : ClientBase → Response → Option Response
augment_container_stats c (container_stats_response out) = elim out.stats [
  | none ↦ some (container_stats_response out)
  | some stats ↦ some (
      container_stats_response (record {
        stats = some (set_container_stats_id (augment_id c (container_stats_id stats)) stats);
      }))
]
augment_container_stats c _ = none

module _ (env : Env) (r : RuntimeProxy) (method : Text) where
  unfoldable pub invoke_container_method : Request → Response → M (ℕ × Response)
  invoke_container_method req resp = do
    id ← assert (container_id? req)
    (i, unprefixed) ← client_for_id r id
    resp' ← invoke_with_error_handling env i method (set_container_id unprefixed req) resp
    pure (i, resp')

  unfoldable pub handle_container : Request → Response → M Response
  handle_container req resp = do
    (i, resp') ← invoke_container_method req resp
    pure (fix_response_url env resp')

  -- The image of a CreateContainerRequest, for the client of its sandbox; digests are not prefixed.
  unfoldable pub unprefix_container_image : ℕ → Text → Request → M Request
  unprefix_container_image i image req = if env.is_digest image then pure req else (do
    found ← client_for_image r image false
    elim found [
      | none ↦ fail (wrong_runtime image)
      | some (j, unprefixed) ↦
          if j == i then pure (set_image unprefixed req) else fail (wrong_runtime image)
    ])

  unfoldable pub create_container : Request → Response → M Response
  create_container req resp = do
    id ← assert (pod_sandbox_id? req)
    (i, unprefixed) ← client_for_id r id
    image ← assert (image? req)
    req' ←
        if text_eq image []
        then fail no_image_specified
        else unprefix_container_image i image (set_pod_sandbox_id unprefixed req)
    resp' ← invoke_with_error_handling env i method req' resp
    out ← with_client r i (λ c. augment_container_id c resp')
    assert out

  unfoldable pub container_status : Request → Response → M Response
  container_status req resp = do
    (i, resp') ← invoke_container_method req resp
    out ← with_client r i (λ c. augment_container_status c resp')
    assert out

  unfoldable pub container_stats : Request → Response → M Response
  container_stats req resp = do
    (i, resp') ← invoke_container_method req resp
    out ← with_client r i (λ c. augment_container_stats c resp')
    assert out
