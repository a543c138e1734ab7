-- ===== src/Tests/Offline.antt =====
-- Requests for single images, with the runtime of the image up and not.
use criproxy.Prelude.{◌≡◌, refl, none, some, [], ◌∷◌}
use criproxy.Text.{codes}
use criproxy.Connection.{new_client_connection, connect, connecting}
use criproxy.Object.Requests.{Request, pull_image_request, pull_image}
use criproxy.Object.Responses.{Response, new_response, pull_image_response}
use criproxy.Proxy.World.{api_client, cri112, World, Slot, ok, on_connection}
use criproxy.Proxy.Quiet.{quiet}
use criproxy.Proxy.Handlers.Image.{handle_image}
use criproxy.Proxy.Handlers.Image.Effects.{handle_image_returns}
use criproxy.Proxy.Handlers.Image.Offline.{handle_image_offline}
use criproxy.Tests.Fixture.{alt, two_runtimes, env, both_up, slot}
use criproxy.Tests.Answered.{alt-IsUp}
use criproxy.Tests.Requests.{running, method}

-- The other runtime was never connected to.
abbrev alt_slot : Slot
alt_slot = record { connection = new_client_connection (codes "/run/alt"); next = none }

abbrev alt_offline : World
alt_offline = quiet (slot (codes "/run/docker") ∷ alt_slot ∷ []) []

abbrev pull_req : Request
pull_req =
    pull_image_request (record { image = some (record { image = codes "alt/nginx" }); rest = [] })

abbrev pull_resp : Response
pull_resp = new_response pull_image

handle_image_offline_example :
    (handle_image env two_runtimes method pull_req pull_resp alt_offline
      ≡ (ok pull_resp, quiet (slot (codes "/run/docker") ∷ on_connection connect alt_slot ∷ []) []))
    × ((on_connection connect alt_slot).connection.state ≡ connecting)
unfolding running new_client_connection
handle_image_offline_example =
    handle_image_offline env two_runtimes method pull_req pull_resp (codes "alt/nginx")
      (slot (codes "/run/docker")) [] alt_slot [] [] refl refl refl

handle_image_returns_example :
    (w' : World) × (handle_image env two_runtimes method pull_req pull_resp both_up
      ≡ (ok (pull_image_response (record { image_ref = codes "alt/" })), w'))
unfolding running
handle_image_returns_example =
    handle_image_returns env two_runtimes method pull_req pull_resp (codes "alt/nginx") refl both_up
      (api_client cri112) alt pull_resp refl alt-IsUp (λ conn. refl)
