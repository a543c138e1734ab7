-- ===== src/Tests/Fixture.antt =====
-- A proxy with the primary runtime and one other, `alt`, both connected.
use criproxy.Prelude.{Option, none, some, List, [], ◌∷◌, ◌++◌}
use criproxy.Text.{Text, codes, has_prefix}
use criproxy.Errors.{Error}
use criproxy.Naming.{ClientBase}
use criproxy.Connection.{Connection, connected}
use criproxy.Object.Requests.{Request, run_pod_sandbox_request, exec_request}
use criproxy.Object.Responses.{Response, run_pod_sandbox_response, exec_response}
use criproxy.Proxy.World.{cri112, api_client, Slot, Call, World}
use criproxy.Proxy.Client.{Env}
use criproxy.Proxy.Routing.{RuntimeProxy}

abbrev pub primary_client_base : ClientBase
primary_client_base = record { id = [] }

abbrev pub alt : ClientBase
alt = record { id = codes "alt" }

abbrev pub two_runtimes : RuntimeProxy
two_runtimes = record { cri_version = cri112; primary = primary_client_base; others = alt ∷ [] }

abbrev pub up : Text → Connection
up addr = record {
  addr = addr;
  conn = some 0;
  state = connected;
  connect_err_chs = [];
  sent = [];
  next_ch = 0;
  next_conn = 1;
  dialing = 0;
}

abbrev pub slot : Text → Slot
slot addr = record { connection = up addr; next = some (api_client cri112) }

abbrev pub both_up : World
both_up = record {
  slots = slot (codes "/run/docker") ∷ slot (codes "/run/alt") ∷ [];
  schedule = [];
  log = [];
}

-- What the runtimes of the tests answer: a new sandbox `s1`, a streaming path.
abbrev pub answer : Request → Response → Response
answer (run_pod_sandbox_request r) resp =
    run_pod_sandbox_response (record { pod_sandbox_id = codes "s1" })
answer (exec_request r) resp = exec_response (record { url = codes "/cri/exec/x" })
answer r resp = resp

abbrev pub serve : List Call → Call → Response → Response × Option Error
serve log call resp = (answer call.req resp, none)

abbrev pub env : Env
env = record {
  is_digest = λ t. has_prefix t (codes "sha256:");
  stream_url = λ path. codes "http://127.0.0.1:11250" ++ path;
  serve = serve;
  upgrade_request = some;
  upgrade_response = some;
  downgrade_response = some;
}
