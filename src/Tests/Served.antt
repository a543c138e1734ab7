-- ===== src/Tests/Served.antt =====
-- Requests to the server of two proxies, and the probe of a runtime.
use criproxy.Prelude.{
  map, zero, suc, ◌≡◌, ◌≢◌, refl, Option, none, some, [], ◌∷◌, All, ◌⊎◌, if◌then◌else◌, arith, set,
}
use criproxy.Text.{Text, codes, has_prefix, text_eq, last_index}
use criproxy.Errors.{Error, not_connected, no_interceptor}
use criproxy.Object.Requests.{method_of}
use criproxy.Object.Responses.{Response, run_pod_sandbox_response, method_of_response}
use criproxy.Proxy.World.{Version, cri19, cri112, Slot, Next, api_client, err}
use criproxy.Proxy.Client.{Env}
use criproxy.Proxy.Client.Types.{KeepsType}
use criproxy.Proxy.Logic.Ensures.{Ensures}
use criproxy.Proxy.Dispatch.{proto_package, method_prefix, matches, intercept}
use criproxy.Proxy.Dispatch.Types.{intercept-Ensures}
use criproxy.Proxy.Probe.{version_method, to_try, check_from, check_connection}
use criproxy.Proxy.Probe.Choice.{Speaks, check_connection_cases}
use criproxy.Proxy.Server.{Running, run, server_intercept}
use criproxy.Proxy.Server.Choice.{
  IsFirstOfVersion, server_intercept-run, server_intercept_unmatched,
}
use criproxy.Connection.{new_client_connection, connect, dial_succeeds}
use criproxy.Connection.Invariant.{here, next, connects, dials}
use criproxy.Proxy.Stop.{stop_interceptors}
use criproxy.Proxy.Stop.Effects.{IsDown, IsReached, stopped, stop_interceptors-quiet}
use criproxy.Tests.Fixture
use criproxy.Tests.Fixture.{two_runtimes, both_up}
use criproxy.Tests.Requests.{exec_req}
use criproxy.Tests.Dispatched.{full_method, old_proxy}

-- Runtimes that give new sandboxes the id `s1`.
abbrev answer_to : Response → Response
answer_to (run_pod_sandbox_response r) =
    run_pod_sandbox_response (record { pod_sandbox_id = codes "s1" })
answer_to resp = resp

abbrev env : Env
env = record Fixture.env { serve = λ log call resp. (answer_to resp, none) }

env-KeepsType : KeepsType env
unfolding method_of_response
env-KeepsType log call (run_pod_sandbox_response r) = refl
env-KeepsType log call _ = refl

intercept-Ensures_example :
    Ensures
      (λ out. method_of_response out ≡ method_of (exec_req (codes "alt__c1")))
      (intercept env two_runtimes full_method (exec_req (codes "alt__c1")))
intercept-Ensures_example =
    intercept-Ensures env env-KeepsType two_runtimes full_method (exec_req (codes "alt__c1"))

-- A runtime of version 1.9 only.
abbrev answers_old : Text → Option Error
answers_old m = if has_prefix m (method_prefix cri112) then some not_connected else none

old_runtime_test : check_connection answers_old cri19 ≡ (some (api_client cri19), none)
unfolding check_connection check_from to_try version_method proto_package method_prefix has_prefix
old_runtime_test = refl

no_runtime_test : check_connection answers_old cri112 ≡ (none, some not_connected)
unfolding check_connection check_from to_try version_method proto_package method_prefix has_prefix
no_runtime_test = refl

check_connection_cases_example :
    ((next : Next) × (u : Version) × (check_connection answers_old cri19 ≡ (some next, none))
      × (answers_old (version_method u) ≡ none)
      × ((answers_old (version_method cri112) ≡ none) → u ≡ cri112)
      × Speaks env cri19 next u)
    ⊎ ((e : Error) × (check_connection answers_old cri19 ≡ (none, some e))
        × (answers_old (version_method cri112) ≢ none)
        × (answers_old (version_method cri19) ≢ none))
check_connection_cases_example = check_connection_cases env cri19 answers_old

abbrev old_running : Running
old_running = record { env = env; proxy = old_proxy; world = both_up }

abbrev new_running : Running
new_running = record { env = env; proxy = two_runtimes; world = both_up }

first_new : IsFirstOfVersion (old_running ∷ new_running ∷ []) 1 new_running
first_new zero q lt e same = cc
first_new (suc j) q lt e same = absurd (omega (arith, lt))

server_intercept-run_test :
    server_intercept (old_running ∷ new_running ∷ []) full_method (exec_req (codes "alt__c1")) ≡ (
      (run new_running full_method (exec_req (codes "alt__c1"))).0,
      set (old_running ∷ new_running ∷ []) 1 (record new_running {
        world = (run new_running full_method (exec_req (codes "alt__c1"))).1;
      }),
    )
unfolding matches last_index text_eq method_prefix proto_package has_prefix
server_intercept-run_test =
    server_intercept-run full_method (exec_req (codes "alt__c1")) (old_running ∷ new_running ∷ []) 1
      new_running refl refl first_new

unmatched_test :
    server_intercept (old_running ∷ []) full_method (exec_req (codes "alt__c1"))
    ≡ (err (no_interceptor full_method), old_running ∷ [])
unfolding matches last_index text_eq method_prefix proto_package has_prefix
unmatched_test =
    server_intercept_unmatched full_method (exec_req (codes "alt__c1")) (old_running ∷ [])
      (refl, tt)

-- A client that is up, with its history.
abbrev dialed_slot : Text → Slot
dialed_slot addr = record {
  connection = dial_succeeds (connect (new_client_connection addr));
  next = some (api_client cri112);
}

dialed-IsReached : (addr : Text) → IsReached (dialed_slot addr)
unfolding connect new_client_connection
dialed-IsReached addr = (addr, next (next here (connects _)) (dials _ (omega arith)))

abbrev dialed_running : Running
dialed_running = record new_running {
  world = record both_up {
    slots = dialed_slot (codes "/run/docker") ∷ dialed_slot (codes "/run/alt") ∷ [];
  };
}

stop_interceptors-quiet_example :
    (stop_interceptors (dialed_running ∷ []) ≡ map stopped (dialed_running ∷ []))
    × All (λ p. All IsDown p.world.slots) (stop_interceptors (dialed_running ∷ []))
stop_interceptors-quiet_example =
    stop_interceptors-quiet (dialed_running ∷ [])
      ((refl, refl, (dialed-IsReached _, (dialed-IsReached _, tt))), tt)
