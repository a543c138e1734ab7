-- ===== src/Proxy/Client/Returns.antt =====
-- Requests that get a result: a client that is up and whose runtime answers, with no other events.
mod Up
use criproxy.Prelude.{
  ℕ, zero, suc, ◌≡◌, refl, sym, ap, ◌∙◌, true, Option, none, some, List, [], ◌∷◌, get_elem?, arith,
  subst,
}
use criproxy.Text.{Text, replace_first}
use criproxy.Connection.{Connection, connected, connect}
use criproxy.Connection.Delivery.{received}
use criproxy.Object.Requests.{Request, wrap_request}
use criproxy.Object.Responses.{Response}
use criproxy.Object.Wrap.{wrap_response}
use criproxy.Proxy.World.{
  cri112, Version, Next, api_client, upgrading_client, Slot, World, modify, ok, M, ◌>>=◌, assert,
  tick, on_connection, on_slot, Call,
}
use criproxy.Proxy.Client.{
  Env, is_up, connect_client, is_client_up, received_by, await_from, await, connect_and_wait,
  next_if_up, rpc_call, after_call, api_invoke_with_error_handling, legacy_package, new_package,
  invoke_next_with_error_handling, invoke_with_error_handling,
}
pub use Up.*

module _ (env : Env) where
  -- The runtime at a place answers the request that a client behind the autoClient there makes of a
  -- request, whatever the connection, and the conversions on the way succeed.
  abbrev pub Serves : Next → ℕ → Text → Request → Response → List Call → Response → Type 0
  Serves (api_client v) i method req resp log answer =
      (conn : Option ℕ)
      → env.serve log (record { client = i; conn = conn; method = method; req = req }) resp
        ≡ (answer, none)
  Serves (upgrading_client next) i method req resp log answer =
      (q : Request) × (u reply d : Response) × (env.upgrade_request req ≡ some q)
      × (env.upgrade_response resp ≡ some u)
      × Serves next i (replace_first method legacy_package new_package) (wrap_request cri112 q) u
          log reply
      × (env.downgrade_response reply ≡ some d)
      × (wrap_response resp d ≡ some answer)

  api_returns :
      {next : Next} {i : ℕ} {log : List Call} {w : World} (v : Version) (method : Text)
      (req : Request) (resp answer : Response)
      → IsUp next i log w
      → Serves (api_client v) i method req resp log answer
      → Returns
          (api_invoke_with_error_handling env i method req resp)
          w
          (λ a v. (a ≡ answer) × Unit)
  unfolding api_invoke_with_error_handling rpc_call after_call
  api_returns {next} {i} {log} {w} v method req resp answer u h =
      Returns-then _ _ _ _ _ _ (read_returns u (λ s. s.connection.conn)) λ w' k.
        Returns-then _ _ _ (answer, none) _ _
          (called w' u.slot.connection.conn (rw (k.logged) (h u.slot.connection.conn)))
          λ w'' l. (answer, w'', refl, (refl, tt))
    where
      called :
          (w' : World) (conn : Option ℕ)
          → env.serve w'.log (record { client = i; conn = conn; method = method; req = req }) resp
            ≡ (answer, none)
          → Returns (rpc_call env i conn method req resp) w' (λ r v. (r ≡ (answer, none)) × Unit)
      called w' conn e = (
        (answer, none),
        record w' { log = record { client = i; conn = conn; method = method; req = req } ∷ w'.log },
        rw e,
        (refl, tt),
      )

  next_returns :
      {behind : Next} {i : ℕ} {log : List Call} {w : World} (next : Next) (method : Text)
      (req : Request) (resp answer : Response)
      → IsUp behind i log w
      → Serves next i method req resp log answer
      → Returns
          (invoke_next_with_error_handling env next i method req resp)
          w
          (λ a v. (a ≡ answer) × Unit)
  unfolding invoke_next_with_error_handling
  next_returns (api_client v) method req resp answer u h = api_returns v method req resp answer u h
  next_returns (upgrading_client next) method req resp answer u h =
      let (q, up, reply, d, hq, hu, served, hd, ha) = h in
      Returns-then _ _ _ q _ _ (assert_returns u _ q hq) λ w1 u1.
        Returns-then _ _ _ up _ _ (assert_returns u1 _ up hu) λ w2 u2.
          Returns-then _ _ _ reply _ _
            (next_returns next (replace_first method legacy_package new_package)
              (wrap_request cri112 q) up reply u2 served)
            λ w3 _.
              Returns-then _ _ _ d _ _ (Returns-assert _ d w3 hd)
                λ w4 _. (answer, w4, rw ha, (refl, tt))

  pub invoke_with_error_handling_returns :
      {next : Next} {i : ℕ} {log : List Call} {w : World} (method : Text) (req : Request)
      (resp answer : Response)
      → IsUp next i log w
      → Serves next i method req resp log answer
      → Returns (invoke_with_error_handling env i method req resp) w (λ a v. (a ≡ answer) × Unit)
  unfolding invoke_with_error_handling
  invoke_with_error_handling_returns {next} {i} {log} {w} method req resp answer u h =
      Returns-then _ _ _ (some (some next)) _ _ (found u (read_returns u next_if_up)) λ w1 k.
        Returns-then _ _ _ next _ _ (assert_returns k (some next) next refl)
          λ w2 l. next_returns next method req resp answer l h
    where
      found :
          (u : IsUp next i log w)
          → Returns
              (on_slot i next_if_up (λ s. s))
              w
              (λ a v. (a ≡ next_if_up u.slot) × IsUp next i log v)
          → Returns
              (on_slot i next_if_up (λ s. s))
              w
              (λ a v. (a ≡ some (some next)) × IsUp next i log v)
      found u (a, v, e, (k, l)) = (a, v, e, (k ∙ ground (arith, u.state, u.behind), l))
