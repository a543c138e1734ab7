-- ===== src/Tests/Answered.antt =====
-- Requests that the runtimes of the fixture answer, and a listing.
use criproxy.Prelude.{◌≡◌, refl, some, none, [], ◌∷◌, inr}
use criproxy.Text.{codes}
use criproxy.Object.Requests.{Request, exec, list_images_request}
use criproxy.Object.Responses.{
  image, Response, new_response, exec_response, run_pod_sandbox_response, create_container_response,
  list_images_response, items?, set_items, cast_all,
}
use criproxy.Object.Responses.Items.{items?-set_items}
use criproxy.Proxy.Logic.Unfailing.{Unfailing}
use criproxy.Proxy.World.{api_client, cri112, Next}
use criproxy.Proxy.Client.Calls.{IsSent}
use criproxy.Proxy.Client.Returns.{IsUp}
use criproxy.Proxy.Routing.Returns.{route_annotations_from}
use criproxy.Proxy.Handlers.Sandbox.{run_pod_sandbox, handle_pod_sandbox}
use criproxy.Proxy.Handlers.Sandbox.Effects.{RunSent}
use criproxy.Proxy.Handlers.Container.{handle_container, create_container}
use criproxy.Proxy.Handlers.Container.Create.{CreateSent}
use criproxy.Proxy.Handlers.Returns.{
  Answers, handle_container_returns, handle_pod_sandbox_returns, run_pod_sandbox_returns,
  create_container_returns,
}
use criproxy.Tests.Fixture.{alt, two_runtimes, env, both_up}
use criproxy.Tests.Names.{an_image}
use criproxy.Tests.Requests.{
  running, method, annotations, run_req, run_resp, exec_req, new_sandbox, stop_req, stop_resp,
  create_resp, alt_req, create_req,
}

abbrev pub behind : Next
behind = api_client cri112

pub alt-IsUp : IsUp behind 1 [] both_up
alt-IsUp = record {
  quiet = refl;
  logged = refl;
  slot = _;
  here = refl;
  state = refl;
  behind = refl;
}

handle_container_returns_example :
    Answers
      (handle_container env two_runtimes method (exec_req (codes "alt__c1")) (new_response exec))
      both_up
      (IsSent env 1 method (exec_req (codes "c1")))
      (exec_response (record { url = codes "http://127.0.0.1:11250/cri/exec/x" }))
unfolding running
handle_container_returns_example =
    handle_container_returns env two_runtimes method (exec_req (codes "alt__c1"))
      (new_response exec) (exec_response (record { url = codes "/cri/exec/x" })) behind both_up
      (codes "alt__c1") alt-IsUp refl (λ conn. refl)

handle_pod_sandbox_returns_example :
    Answers
      (handle_pod_sandbox env two_runtimes method (stop_req (codes "alt__s1")) stop_resp)
      both_up
      (IsSent env 1 method (stop_req (codes "s1")))
      stop_resp
unfolding running
handle_pod_sandbox_returns_example =
    handle_pod_sandbox_returns env two_runtimes method (stop_req (codes "alt__s1")) stop_resp
      stop_resp behind both_up (codes "alt__s1") alt-IsUp refl (λ conn. refl)

run_pod_sandbox_returns_example :
    Answers
      (run_pod_sandbox env two_runtimes method run_req run_resp)
      both_up
      (RunSent env two_runtimes method run_req run_resp annotations)
      new_sandbox
unfolding running route_annotations_from
run_pod_sandbox_returns_example =
    run_pod_sandbox_returns env two_runtimes method run_req run_resp
      (run_pod_sandbox_response (record { pod_sandbox_id = codes "s1" })) behind both_up annotations
      1 alt new_sandbox refl refl refl alt-IsUp (λ conn. refl) refl

-- The runtime of the tests leaves the response to CreateContainer as it is, with the empty id.
create_container_returns_example :
    Answers
      (create_container env two_runtimes method alt_req create_resp)
      both_up
      (CreateSent env two_runtimes method alt_req create_resp (codes "alt__s1") (codes "alt/nginx"))
      (create_container_response (record { container_id = codes "alt__" }))
unfolding running
create_container_returns_example =
    create_container_returns env two_runtimes method alt_req create_resp create_resp behind both_up
      (codes "alt__s1") (codes "alt/nginx") alt (create_req (codes "s1") (codes "nginx"))
      (create_container_response (record { container_id = codes "alt__" })) refl refl (λ e. cc)
      (inr (refl, refl, refl)) refl alt-IsUp (λ conn. refl) refl

abbrev list_req : Request
list_req = list_images_request (record { filter = none })

abbrev list_resp : Response
list_resp = list_images_response (record { images = [] })

items?-set_items_test :
    items? (list_images_response (record { images = an_image ∷ [] })) ≡ some (image an_image ∷ [])
unfolding set_items cast_all
items?-set_items_test =
    items?-set_items (image an_image ∷ []) list_resp
      (list_images_response (record { images = an_image ∷ [] })) refl
