-- ===== src/Proxy/Server.antt =====
-- Server of pkg/proxy/grpc.go: the interceptors are proxies, each with the state of its clients.
pub mod Choice
pub mod EndToEnd
pub mod Made
use criproxy.Prelude.{true, false, List, [], ◌∷◌, if◌then◌else◌}
use criproxy.Text.{Text}
use criproxy.Errors.{no_interceptor}
use criproxy.Object.Requests.{Request}
use criproxy.Object.Responses.{Response}
use criproxy.Proxy.World.{World, Out, err}
use criproxy.Proxy.Client.{Env}
use criproxy.Proxy.Routing.{RuntimeProxy}
use criproxy.Proxy.Dispatch.{matches, intercept}

pub record Running : Type 0 where
  pub env : Env
  pub proxy : RuntimeProxy
  pub world : World

abbrev pub run : Running → Text → Request → Out Response × World
run p full_method req = intercept p.env p.proxy full_method req p.world

-- intercept: the first interceptor that matches handles the request.
unfoldable pub server_intercept : List Running → Text → Request → Out Response × List Running
server_intercept [] full_method req = (err (no_interceptor full_method), [])
server_intercept (p ∷ ps) full_method req = elim (matches p.proxy full_method) [
  | true ↦ let (out, w) = run p full_method req in (out, record p { world = w } ∷ ps)
  | false ↦ let (out, ps') = server_intercept ps full_method req in (out, p ∷ ps')
]
