-- ===== src/Tests/Requests.antt =====
-- Requests to the proxy of the fixture.
use criproxy.Prelude.{◌≡◌, refl, true, false, some, List, [], ◌∷◌}
use criproxy.Text.{Text, codes, contains}
use criproxy.Naming.{Annotations, lookup, annotations_match, target_runtime_annotation_key}
use criproxy.Connection.{connect}
use criproxy.Connection.Delivery.{received}
use criproxy.Object.Requests.{
  Request, Method, stop_container, container_status, exec, run_pod_sandbox_request,
  stop_container_request, exec_request, container_status_request, stop_pod_sandbox_request,
  create_container_request, set_container_id, set_pod_sandbox_id, container_id?, pod_sandbox_id?,
  annotations?, image?, set_image, get_image, container_config_image, set_container_config_image,
}
use criproxy.Object.Responses.{
  Response, new_response, exec_response, run_pod_sandbox_response, url?, set_url,
}
use criproxy.Object.Requests
use criproxy.Proxy.World.{ok, ◌>>=◌, tick, on_slot, modify, Call}
use criproxy.Proxy.Client.{
  connect_client, is_client_up, received_by, await_from, await, connect_and_wait, rpc_call,
  handle_client_error, after_call, api_invoke_with_error_handling, invoke_next_with_error_handling,
  invoke_with_error_handling,
}
use criproxy.Proxy.Client.Calls.{IsSent, IsAnswer, invoke_with_error_handling-Sends}
use criproxy.Proxy.Logic.{Reads, Sends}
use criproxy.Proxy.Routing.{
  clients, client_for_id_from, client_for_id, client_for_image_from, client_for_image,
  client_for_annotations_from, client_for_annotations,
}
use criproxy.Proxy.Routing.Route.{
  route_id, route_image, client_for_id-Reads, client_for_image-Reads, IsImageClient,
  MatchesAnnotations,
}
use criproxy.Proxy.Handlers.Common.{fix_streaming_url, fix_response_url}
use criproxy.Proxy.Handlers.Sandbox.{run_pod_sandbox, handle_pod_sandbox}
use criproxy.Proxy.Handlers.Sandbox.Effects.{
  handle_pod_sandbox-Sends, run_pod_sandbox-Sends, RunSent, RunAnswer, run_pod_sandbox-LeadsBack,
  LeadsBack,
}
use criproxy.Proxy.Handlers.Container.{
  invoke_container_method, handle_container, create_container, unprefix_container_image,
}
use criproxy.Proxy.Handlers.Container.Effects.{handle_container-Sends}
use criproxy.Proxy.Handlers.Container.Create.{CreateSent, CreateAnswer, create_container-Sends}
use criproxy.Tests.Fixture.{two_runtimes, env, both_up}
use criproxy.Tests.Names.{names, well_formed}

-- All that a run of a request computes with.
unfoldable pub running : Unit {0}
unfolding names lookup annotations_match contains connect received new_response set_container_id
    set_pod_sandbox_id container_id? pod_sandbox_id? annotations? image? set_image get_image
    container_config_image set_container_config_image url? set_url ◌>>=◌ tick on_slot modify
    connect_client is_client_up received_by await_from await connect_and_wait rpc_call
    handle_client_error after_call api_invoke_with_error_handling invoke_next_with_error_handling
    invoke_with_error_handling client_for_id_from client_for_id client_for_image_from
    client_for_image client_for_annotations_from client_for_annotations fix_streaming_url
    fix_response_url run_pod_sandbox handle_pod_sandbox invoke_container_method handle_container
    create_container unprefix_container_image
running = tt

abbrev pub method : Text
method = codes "/runtime.v1alpha2.RuntimeService/Any"

-- A sandbox for the other runtime.
abbrev pub annotations : Annotations
annotations = (target_runtime_annotation_key, codes "alt") ∷ []

abbrev pub run_req : Request
run_req =
    run_pod_sandbox_request
      (record { config = some (record { annotations = annotations; rest = [] }); rest = [] })

abbrev pub run_resp : Response
run_resp = new_response Requests.run_pod_sandbox

abbrev pub exec_req : Text → Request
exec_req id = exec_request (record { container_id = id; stdout = true; stderr = false; rest = [] })

abbrev pub new_sandbox : Response
new_sandbox = run_pod_sandbox_response (record { pod_sandbox_id = codes "alt__s1" })

run_test : (run_pod_sandbox env two_runtimes method run_req run_resp both_up).0 ≡ ok new_sandbox
unfolding running
run_test = refl

exec_test :
    (handle_container env two_runtimes method
      (exec_req (codes "alt__c1"))
      (new_response exec)
      both_up).0
    ≡ ok (exec_response (record { url = codes "http://127.0.0.1:11250/cri/exec/x" }))
unfolding running
exec_test = refl

-- A container of the other runtime, and a sandbox of it.
abbrev UrlAnswer : Response → List Call → Call → Response → Type 0
UrlAnswer resp log call out =
    (answer : Response) × IsAnswer env resp log call answer × (out ≡ fix_response_url env answer)

handle_container-Sends_example :
    Sends
      (IsSent env 1 method (exec_req (codes "c1")))
      (UrlAnswer (new_response exec))
      (handle_container env two_runtimes method (exec_req (codes "alt__c1")) (new_response exec))
unfolding running
handle_container-Sends_example =
    handle_container-Sends env two_runtimes method (exec_req (codes "alt__c1")) (new_response exec)
      (codes "alt__c1") refl

abbrev pub stop_req : Text → Request
stop_req id = stop_pod_sandbox_request (record { pod_sandbox_id = id })

abbrev pub stop_resp : Response
stop_resp = new_response Requests.stop_pod_sandbox

handle_pod_sandbox-Sends_test :
    Sends
      (IsSent env 1 method (stop_req (codes "s1")))
      (UrlAnswer stop_resp)
      (handle_pod_sandbox env two_runtimes method (stop_req (codes "alt__s1")) stop_resp)
unfolding running
handle_pod_sandbox-Sends_test =
    handle_pod_sandbox-Sends env two_runtimes method (stop_req (codes "alt__s1")) stop_resp
      (codes "alt__s1") refl

run_pod_sandbox-Sends_test :
    Sends
      (RunSent env two_runtimes method run_req run_resp annotations)
      (RunAnswer env two_runtimes method run_req run_resp annotations)
      (run_pod_sandbox env two_runtimes method run_req run_resp)
unfolding running
run_pod_sandbox-Sends_test =
    run_pod_sandbox-Sends env two_runtimes method run_req run_resp annotations refl

run_pod_sandbox-LeadsBack_example :
    (call : Call) × (id answer_id : Text) × ((run_pod_sandbox env two_runtimes method run_req
        run_resp both_up).1.log
      ≡ call ∷ [])
    × MatchesAnnotations (clients two_runtimes) annotations call.client
    × IsAnswer env run_resp [] call
        (run_pod_sandbox_response (record { pod_sandbox_id = answer_id }))
    × (new_sandbox ≡ run_pod_sandbox_response (record { pod_sandbox_id = id }))
    × LeadsBack two_runtimes call id answer_id
unfolding running
run_pod_sandbox-LeadsBack_example =
    run_pod_sandbox-LeadsBack env two_runtimes method run_req run_resp new_sandbox annotations
      both_up (run_pod_sandbox env two_runtimes method run_req run_resp both_up).1 well_formed refl
      refl

abbrev pub create_req : Text → Text → Request
create_req id image = create_container_request (record {
  pod_sandbox_id = id;
  config = some (record { image = some (record { image = image }); rest = [] });
  rest = [];
})

abbrev pub create_resp : Response
create_resp = new_response Requests.create_container

abbrev pub alt_req : Request
alt_req = create_req (codes "alt__s1") (codes "alt/nginx")

create_container-Sends_example :
    Sends
      (CreateSent env two_runtimes method alt_req create_resp (codes "alt__s1") (codes "alt/nginx"))
      (CreateAnswer env two_runtimes method alt_req create_resp
        (codes "alt__s1")
        (codes "alt/nginx"))
      (create_container env two_runtimes method alt_req create_resp)
unfolding running
create_container-Sends_example =
    create_container-Sends env two_runtimes method alt_req create_resp (codes "alt__s1")
      (codes "alt/nginx") refl refl

client_for_id-Reads_example :
    Reads
      (λ found. found ≡ route_id two_runtimes (codes "alt__c1"))
      (client_for_id two_runtimes (codes "alt__c1"))
client_for_id-Reads_example = client_for_id-Reads two_runtimes (codes "alt__c1")

client_for_image-Reads_example :
    Reads
      (IsImageClient (route_image two_runtimes (codes "alt/nginx")) true)
      (client_for_image two_runtimes (codes "alt/nginx") true)
client_for_image-Reads_example = client_for_image-Reads two_runtimes (codes "alt/nginx") true

invoke_with_error_handling-Sends_test :
    Sends
      (IsSent env 1 method (exec_req (codes "c1")))
      (IsAnswer env (new_response exec))
      (invoke_with_error_handling env 1 method (exec_req (codes "c1")) (new_response exec))
invoke_with_error_handling-Sends_test =
    invoke_with_error_handling-Sends env 1 method (exec_req (codes "c1")) (new_response exec)
