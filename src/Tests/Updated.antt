-- ===== src/Tests/Updated.antt =====
-- An update of the configuration of three runtimes, of which one fails and one is not up.
use criproxy.Prelude.{true, false, ◌++◌, ◌≡◌, refl, none, some, List, [], ◌∷◌, if◌then◌else◌, ◌==◌}
use criproxy.Text.{codes}
use criproxy.Errors.{not_connected, at_addr, join}
use criproxy.Connection.{new_client_connection}
use criproxy.Object.Requests.{Request, update_runtime_config_request}
use criproxy.Object.Responses.{Response, update_runtime_config_response}
use criproxy.Proxy.World.{Call, err}
use criproxy.Proxy.Quiet.{quiet}
use criproxy.Proxy.Client.{Env}
use criproxy.Proxy.Client.Quiet.{IsAsked}
use criproxy.Proxy.Handlers.Common.{update_runtime_config}
use criproxy.Proxy.Handlers.Common.Update.{
  Outcome, slots_after, errors_of, response_after, result_of, update_runtime_config-Exact,
}
use criproxy.Tests.Fixture
use criproxy.Tests.Requests.{method}
use criproxy.Tests.Listed.{three_runtimes, slots}

abbrev update_req : Request
update_req = update_runtime_config_request (record { rest = [] })

abbrev update_resp : Response
update_resp = update_runtime_config_response (record {})

-- The other runtime fails.
abbrev env : Env
env = record Fixture.env {
  serve = λ log call resp. (resp, if call.client == 0 then none else some not_connected);
}

abbrev outcomes : List Outcome
outcomes = some (update_resp, none) ∷ some (update_resp, some not_connected) ∷ none ∷ []

failed_test :
    result_of (response_after outcomes update_resp) (errors_of outcomes slots)
    ≡ err (join (at_addr (codes "/run/alt") not_connected) [])
failed_test = refl

update_runtime_config-Exact_example :
    (new : List Call) × (update_runtime_config env three_runtimes method update_req update_resp
        (quiet slots [])
      ≡ (
        result_of (response_after outcomes update_resp) (errors_of outcomes slots),
        quiet (slots_after outcomes slots) (new ++ []),
      ))
    × IsAsked env method update_req 0 (true ∷ true ∷ false ∷ []) new
unfolding new_client_connection
update_runtime_config-Exact_example =
    update_runtime_config-Exact env three_runtimes method update_req slots outcomes update_resp []
      ((_, refl, refl, λ log. refl), ((_, refl, refl, λ log. refl), (refl, tt)))
