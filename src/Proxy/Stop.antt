-- ===== src/Proxy/Stop.antt =====
-- Stop of pkg/proxy/proxy.go and of pkg/proxy/grpc.go: every client of every proxy is stopped.
pub mod Effects
use criproxy.Prelude.{ℕ, suc, List, [], ◌∷◌}
use criproxy.Naming.{ClientBase}
use criproxy.Connection.{stop}
use criproxy.Proxy.World.{M, ◌>>=◌, ◌>>◌, pure, on_slot, on_connection}
use criproxy.Proxy.Routing.{RuntimeProxy, clients}
use criproxy.Proxy.Server.{Running}

-- stop of a client
unfoldable pub stop_client : ℕ → M (Unit {0})
stop_client i = on_slot i (λ s. tt) (on_connection stop)

-- The loop from the i-th client on.
unfoldable pub stop_from : ℕ → List ClientBase → M (Unit {0})
stop_from i [] = pure tt
stop_from i (c ∷ cs) = do stop_client i; stop_from (suc i) cs

unfoldable pub stop_proxy : RuntimeProxy → M (Unit {0})
stop_proxy r = stop_from 0 (clients r)

-- The loop of the server's Stop, without the end of the gRPC server.
unfoldable pub stop_interceptors : List Running → List Running
stop_interceptors [] = []
stop_interceptors (p ∷ ps) =
    record p { world = (stop_proxy p.proxy p.world).1 } ∷ stop_interceptors ps
