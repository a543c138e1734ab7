-- ===== src/Tests/Dispatched.antt =====
-- The construction of proxies, and methods of requests to the proxy of the fixture.
use criproxy.Prelude.{◌≡◌, refl, false, true, none, some, [], ◌∷◌, List, map, All, ◌⊎◌, inl, inr}
use criproxy.Text.{Text, codes, has_prefix, text_eq, last_index, index}
use criproxy.Object.Requests.{
  Request, exec, exec_request, method_of, wrap_request, wrap_exec, wrap_exec_19, wrap_exec_112,
}
use criproxy.Object.Responses.{new_response}
use criproxy.Proxy.World.{cri19, cri112}
use criproxy.Proxy.Routing.{RuntimeProxy}
use criproxy.Proxy.Dispatch.{
  handler_for, handler_from, proto_package, method_prefix, matches, wrap_object,
}
use criproxy.Proxy.Dispatch.Methods.{matches_version, matches-has_prefix}
use criproxy.Errors.{Error}
use criproxy.Naming.{augment_id, is_primary}
use criproxy.Proxy.Routing.Route.{route_id}
use criproxy.Proxy.Construction.{
  client_of, slot_of, any_primary, new_runtime_proxy, IsNotPrimary, new_runtime_proxy_cases,
  split_addr,
}
use criproxy.Tests.Names.{names}
use criproxy.Tests.Fixture.{two_runtimes, primary_client_base}

abbrev pub full_method : Text
full_method = codes "/runtime.v1alpha2.RuntimeService/Exec"

abbrev pub old_proxy : RuntimeProxy
old_proxy = record { cri_version = cri19; primary = primary_client_base; others = [] }

unknown_test : handler_for (codes "RuntimeService/Unknown") ≡ none
unfolding handler_for handler_from text_eq
unknown_test = refl

abbrev pub no_streams : Request
no_streams =
    exec_request (record { container_id = codes "c1"; stdout = false; stderr = false; rest = [] })

abbrev both_streams : Request
both_streams =
    exec_request (record { container_id = codes "c1"; stdout = true; stderr = true; rest = [] })

-- Only version 1.9 turns the streams of a request with neither on.
wrap_old_test : wrap_object cri19 no_streams ≡ some (both_streams, new_response exec)
unfolding wrap_object wrap_request wrap_exec wrap_exec_19 method_of
wrap_old_test = refl

wrap_new_test : wrap_object cri112 no_streams ≡ some (no_streams, new_response exec)
unfolding wrap_object wrap_request wrap_exec wrap_exec_112 method_of
wrap_new_test = refl

matches_version_test : cri112 ≡ cri112
unfolding matches last_index text_eq method_prefix proto_package has_prefix
matches_version_test = matches_version two_runtimes two_runtimes full_method refl refl

matches-has_prefix_test : has_prefix full_method (method_prefix cri112) ≡ true
unfolding matches last_index text_eq method_prefix proto_package has_prefix
matches-has_prefix_test = matches-has_prefix two_runtimes full_method refl

abbrev addrs : List Text
addrs = codes "alt:/run/alt.sock" ∷ []

split_test : split_addr (codes "alt:/run/a:b") ≡ (codes "alt", codes "/run/a:b")
unfolding split_addr index has_prefix
split_test = refl

new_runtime_proxy_cases_example :
    ((is_primary (client_of (codes "/run/d")) ≡ true)
      × All IsNotPrimary (map client_of addrs)
      × (new_runtime_proxy cri112 (codes "/run/d" ∷ addrs)
          ≡ inr (
            record {
              cri_version = cri112;
              primary = client_of (codes "/run/d");
              others = map client_of addrs;
            },
            map slot_of (codes "/run/d" ∷ addrs),
          )))
    ⊎ (((is_primary (client_of (codes "/run/d")) ≡ false)
          ⊎ (any_primary (map client_of addrs) ≡ true))
        × ((e : Error) × (new_runtime_proxy cri112 (codes "/run/d" ∷ addrs) ≡ inl e)))
new_runtime_proxy_cases_example = new_runtime_proxy_cases cri112 (codes "/run/d") addrs

-- Nothing keeps an id from starting with another one and the separator: the first client takes what
-- the second one made.
abbrev nested : RuntimeProxy
nested = record {
  cri_version = cri112;
  primary = primary_client_base;
  others = record { id = codes "a" } ∷ record { id = codes "a__b" } ∷ [];
}

nested_test :
    route_id nested (augment_id (record { id = codes "a__b" }) (codes "x")) ≡ (1, codes "b__x")
unfolding names
nested_test = refl
