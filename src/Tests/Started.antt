-- ===== src/Tests/Started.antt =====
-- The program is started, and its server gets a request.
use criproxy.Prelude.{
  if◌then◌else◌, none, some, zero, suc, ◌≡◌, refl, List, [], ◌∷◌, ◌++◌, inl, inr, set, arith,
}
use criproxy.Text.{codes, text_eq, index, has_prefix, contains}
use criproxy.Naming.{augment_id, is_primary}
use criproxy.Object.Requests.{
  exec, container_id?, set_container_id, wrap_request, wrap_exec, method_of,
}
use criproxy.Object.Responses.{new_response, exec_response, url?, set_url}
use criproxy.Proxy.World.{is_version, Version, World, Call, ok}
use criproxy.Proxy.Client.Calls.{IsSent}
use criproxy.Proxy.Construction.{client_of, split_addr}
use criproxy.Proxy.Dispatch.{handler_for, handler_from, wrap_object}
use criproxy.Proxy.Dispatch.Methods.{method_name}
use criproxy.Proxy.Server.{Running, run, server_intercept}
use criproxy.Proxy.Server.Made.{Server, Registering, is_registered, new_server, new_server-handles}
use criproxy.Proxy.Server.Choice.{IsFirstOfVersion}
use criproxy.Proxy.Server.EndToEnd.{full_method_name, server_intercept-container}
use criproxy.Program.{Platform, Flags, split, real_stream_url, run_cri_proxy}
use criproxy.Program.Start.{ServesVersion, run_cri_proxy_starts}
use criproxy.Proxy.Handlers.Common.{fix_response_url, fix_streaming_url}
use criproxy.Tests.Fixture.{alt, two_runtimes, env, both_up}
use criproxy.Tests.Names.{well_formed}
use criproxy.Tests.Requests.{exec_req}
use criproxy.Tests.Answered.{behind, alt-IsUp}
use criproxy.Tests.Dispatched.{old_proxy}

abbrev old_side : Running
old_side = record { env = env; proxy = old_proxy; world = both_up }

abbrev new_side : Running
new_side = record { env = env; proxy = two_runtimes; world = both_up }

first_new : IsFirstOfVersion (old_side ∷ new_side ∷ []) 1 new_side
first_new zero q lt e same = cc
first_new (suc j) q lt e same = absurd (omega (arith, lt))

server_intercept-container_example :
    (w : World) × (call : Call) × (server_intercept
        (old_side ∷ new_side ∷ [])
        (full_method_name two_runtimes.cri_version exec)
        (exec_req (codes "alt__c1"))
      ≡ (
        ok (exec_response (record { url = codes "http://127.0.0.1:11250/cri/exec/x" })),
        set (old_side ∷ new_side ∷ []) 1 (record new_side { world = w }),
      ))
    × (w.log ≡ call ∷ [])
    × IsSent env 1 (full_method_name two_runtimes.cri_version exec) (exec_req (codes "c1")) call
unfolding wrap_object handler_for handler_from wrap_request wrap_exec method_of text_eq method_name
    container_id? augment_id new_response is_primary set_container_id fix_response_url url? set_url
    fix_streaming_url has_prefix contains
server_intercept-container_example =
    server_intercept-container (old_side ∷ new_side ∷ []) 1 new_side (exec_req (codes "alt__c1"))
      (exec_req (codes "alt__c1"), new_response exec) refl first_new well_formed refl refl 0 alt
      (codes "c1") refl refl behind (exec_response (record { url = codes "/cri/exec/x" })) alt-IsUp
      (λ conn. refl)

abbrev grpc : Registering
grpc v us = if is_registered v us then none else some (v ∷ us)

abbrev platform : Platform
platform = record {
  bind_address = inr (codes "10.0.0.7");
  join_host_port = λ host port. host ++ codes ":11250";
  parse_url = λ text. inl text;
  env_of = λ u. env;
}

abbrev flags : Flags
flags = record { connect = codes "/run/docker,alt:/run/alt"; stream_port = 11250; stream_url = [] }

run_cri_proxy_starts_example :
    (ps : List Running) × (run_cri_proxy platform (λ v. []) flags ≡ inr ps)
    × ((server : Server) × (new_server grpc ps ≡ some server))
    × ((v : Version) → ServesVersion ps (codes "/run/docker" ∷ codes "alt:/run/alt" ∷ []) v)
unfolding real_stream_url split client_of split_addr index is_primary
run_cri_proxy_starts_example =
    run_cri_proxy_starts grpc (λ v us. refl) platform (λ v. []) flags
      (record { scheme = codes "http"; host = codes "10.0.0.7:11250"; rest = [] })
      (codes "/run/docker") (codes "alt:/run/alt" ∷ []) refl refl refl (refl, tt)

abbrev both_sides : Server
both_sides = record {
  interceptors = old_side ∷ new_side ∷ [];
  registered = new_side.proxy.cri_version ∷ old_side.proxy.cri_version ∷ [];
}

new_server-handles_example :
    server_intercept both_sides.interceptors
      (full_method_name two_runtimes.cri_version exec)
      (exec_req (codes "alt__c1"))
    ≡ (
      (run new_side
          (full_method_name two_runtimes.cri_version exec)
          (exec_req (codes "alt__c1"))).0,
      set both_sides.interceptors 1 (record new_side {
        world =
            (run new_side
              (full_method_name two_runtimes.cri_version exec)
              (exec_req (codes "alt__c1"))).1;
      }),
    )
unfolding new_server is_registered is_version method_of
new_server-handles_example =
    new_server-handles grpc (λ v us. refl) (old_side ∷ new_side ∷ []) both_sides refl 1 new_side
      refl (exec_req (codes "alt__c1"))

-- Two proxies of one version cannot be served together.
registered_twice_test : new_server grpc (new_side ∷ new_side ∷ []) ≡ none
unfolding new_server is_registered is_version
registered_twice_test = refl
