-- ===== src/Proxy/Handlers/Image.antt =====
-- The handler of pkg/proxy/proxy.go for single images.
pub mod Effects
pub mod Offline
use criproxy.Prelude.{ℕ, true, Option, none, some}
use criproxy.Text.{Text}
use criproxy.Naming.{ClientBase, image_name}
use criproxy.Prefix.{prefix_image}
use criproxy.Object.Requests.{Request, image?, set_image}
use criproxy.Object.Responses.{Response, image_status_response, pull_image_response}
use criproxy.Proxy.World.{World, Out, ok, err, M, ◌>>=◌, pure, assert}
use criproxy.Proxy.Client.{Env, invoke_with_error_handling}
use criproxy.Proxy.Routing.{RuntimeProxy, client_for_image}
use criproxy.Proxy.Handlers.Common.{with_client}

module _ (env : Env) (r : RuntimeProxy) (method : Text) where
  -- The image of an ImageStatusResponse, and the image reference of a PullImageResponse.
  abbrev pub prefix_response_image : ClientBase → Response → Response
  prefix_response_image c (image_status_response out) = elim out.image [
    | none ↦ image_status_response out
    | some image ↦
        image_status_response (record out { image = some (prefix_image env.is_digest c image) })
  ]
  prefix_response_image c (pull_image_response out) =
      pull_image_response (record { image_ref = image_name c out.image_ref })
  prefix_response_image c resp = resp

  -- handleImage reads the client only: an error of clientForImage comes with no client.
  abbrev pub no_client_on_error : Out (Option (ℕ × Text)) × World → Out (Option (ℕ × Text)) × World
  no_client_on_error (err e, w) = (ok none, w)
  no_client_on_error (o, w) = (o, w)

  unfoldable pub handle_image : Request → Response → M Response
  handle_image req resp = do
    image ← assert (image? req)
    found ← λ w. no_client_on_error (client_for_image r image true w)
    elim found [
      | none ↦ pure resp
      | some (i, unprefixed) ↦ do
        resp' ← invoke_with_error_handling env i method (set_image unprefixed req) resp
        with_client r i (λ c. prefix_response_image c resp')
    ]
