-- ===== src/Proxy/Client.antt =====
-- autoClient, apiClient and upgradingClient of pkg/proxy/apiclient.go.
pub mod Calls
pub mod Returns
pub mod Types
pub mod Quiet
pub mod Sending
pub mod Answered
use criproxy.Prelude.{
  ℕ, Bool, true, false, Option, none, some, List, [], ◌∷◌, ◌==◌, if◌then◌else◌, get_elem?,
}
use criproxy.Text.{Text, codes, replace_first}
use criproxy.Errors.{Error, not_connected, old_connection, is_unavailable}
use criproxy.Connection.{ClientState, connected, connect, handle_error}
use criproxy.Connection.Delivery.{received}
use criproxy.Object.Requests.{Request, wrap_request}
use criproxy.Object.Responses.{Response}
use criproxy.Object.Wrap.{wrap_response}
use criproxy.Proxy.World.{
  cri112, Next, api_client, upgrading_client, Slot, Event, Call, World, apply_events, Out, ok, err,
  hang, M, ◌>>=◌, pure, fail, assert, on_slot, on_connection,
}

-- What the proxy uses and does not implement.
pub record Env : Type 0 where
  -- digest.Parse gives no error
  pub is_digest : Text → Bool
  -- String of the streaming URL with the path given
  pub stream_url : Text → Text
  -- grpc.Invoke, by the calls made before: what it leaves in the response, and its error
  pub serve : List Call → Call → Response → Response × Option Error
  -- Upgrade and Downgrade of pkg/runtimeapis/convert.go, with none for an error
  pub upgrade_request : Request → Option Request
  pub upgrade_response : Response → Option Response
  pub downgrade_response : Response → Option Response

abbrev pub is_up : ClientState → Bool
is_up connected = true
is_up _ = false

-- connect; the result is the number of the channel.
unfoldable pub connect_client : ℕ → M ℕ
connect_client i = on_slot i (λ s. s.connection.next_ch) (on_connection connect)

-- currentState, and the test that the callers make of it
unfoldable pub is_client_up : ℕ → M Bool
is_client_up i = on_slot i (λ s. is_up s.connection.state) (λ s. s)

unfoldable pub received_by : ℕ → ℕ → List Slot → Option (Option Error)
received_by i ch slots = elim (get_elem? slots i) [
  | none ↦ none
  | some s ↦ received ch s.connection.sent
]

-- The receive from a channel: batches of events pass until it has a value.
unfoldable pub await_from :
    ℕ → ℕ → List (List Event) → List Slot → Option (Option Error) × List Slot × List (List Event)
await_from i ch [] slots = (received_by i ch slots, slots, [])
await_from i ch (b ∷ bs) slots = elim (received_by i ch slots) [
  | some v ↦ (some v, slots, b ∷ bs)
  | none ↦ await_from i ch bs (apply_events b slots)
]

abbrev pub await_end :
    Option (Option Error) × List Slot × List (List Event) → World → Out (Unit {0}) × World
await_end (none, slots, schedule) w = (hang, record w { slots = slots; schedule = schedule })
await_end (some none, slots, schedule) w = (ok tt, record w { slots = slots; schedule = schedule })
await_end (some (some e), slots, schedule) w =
    (err e, record w { slots = slots; schedule = schedule })

unfoldable pub await : ℕ → ℕ → M (Unit {0})
await i ch w = await_end (await_from i ch w.schedule w.slots) w

-- `<-client.connect()`, and the return of its error
unfoldable pub connect_and_wait : ℕ → M (Unit {0})
connect_and_wait i = do ch ← connect_client i; await i ch

-- handleError
unfoldable pub handle_client_error : ℕ → Error → Bool → M (Option Error)
handle_client_error i e tolerate =
    on_slot i (λ s. (handle_error e tolerate s.connection).1)
      (on_connection (λ c. (handle_error e tolerate c).0))

-- The connection of a client that is up, for getConn.
abbrev pub conn_if_up : Slot → Option (Option ℕ)
conn_if_up s = if is_up s.connection.state then some s.connection.conn else none

-- The client behind an autoClient that is up, for getNext.
abbrev pub next_if_up : Slot → Option (Option Next)
next_if_up s = if is_up s.connection.state then some s.next else none

abbrev pub same_conn : Option ℕ → Option ℕ → Bool
same_conn none none = true
same_conn (some a) (some b) = a == b
same_conn _ _ = false

abbrev pub legacy_package : Text
legacy_package = codes "runtime."

abbrev pub new_package : Text
new_package = codes "runtime.v1alpha2."

module _ (env : Env) where
  -- grpc.Invoke
  unfoldable pub rpc_call : ℕ → Option ℕ → Text → Request → Response → M (Response × Option Error)
  rpc_call i conn method req resp w =
      let call : Call = record { client = i; conn = conn; method = method; req = req } in
      (ok (env.serve w.log call resp), record w { log = call ∷ w.log })

  -- An error Unavailable of a connection that was replaced meanwhile does not close the new one.
  unfoldable pub check_conn : ℕ → Option ℕ → Response × Option Error → M (Response × Option Error)
  check_conn i conn (resp, none) = pure (resp, none)
  check_conn i conn (resp, some e) =
      if is_unavailable e
      then (do
        now ← on_slot i (λ s. s.connection.conn) (λ s. s)
        pure (resp, some (if same_conn conn now then e else old_connection)))
      else pure (resp, some e)

  -- invoke of an apiClient: what it leaves in the response, and its error
  unfoldable pub api_invoke : ℕ → Text → Request → Response → M (Response × Option Error)
  api_invoke i method req resp = do
    conn ← on_slot i conn_if_up (λ s. s)
    elim conn [
      | none ↦ pure (resp, some not_connected)
      | some c ↦ rpc_call i c method req resp >>= check_conn i c
    ]

  unfoldable pub after_call : ℕ → Response × Option Error → M Response
  after_call i (resp, none) = pure resp
  after_call i (resp, some e) = do
    left ← handle_client_error i e false
    elim left [ none ↦ pure resp | some e' ↦ fail e' ]

  -- invokeWithErrorHandling of an apiClient, which reads the connection with no test of the state
  unfoldable pub api_invoke_with_error_handling : ℕ → Text → Request → Response → M Response
  api_invoke_with_error_handling i method req resp = do
    conn ← on_slot i (λ s. s.connection.conn) (λ s. s)
    r ← rpc_call i conn method req resp
    after_call i r

  -- The end of a call of an upgradingClient: the response is downgraded if there is no error.
  unfoldable pub downgrade_to : Response → Response × Option Error → M (Response × Option Error)
  downgrade_to resp (r, some e) = pure (resp, some e)
  downgrade_to resp (r, none) = do
    downgraded ← assert (env.downgrade_response r)
    wrapped ← assert (wrap_response resp downgraded)
    pure (wrapped, none)

  -- invoke of the client behind an autoClient
  unfoldable pub invoke_next : Next → ℕ → Text → Request → Response → M (Response × Option Error)
  invoke_next (api_client v) i method req resp = api_invoke i method req resp
  invoke_next (upgrading_client next) i method req resp = do
    req' ← assert (env.upgrade_request req)
    resp' ← assert (env.upgrade_response resp)
    r ←
        invoke_next next i (replace_first method legacy_package new_package)
          (wrap_request cri112 req') resp'
    downgrade_to resp r

  -- invokeWithErrorHandling of the client behind an autoClient
  unfoldable pub invoke_next_with_error_handling : Next → ℕ → Text → Request → Response → M Response
  invoke_next_with_error_handling (api_client v) i method req resp =
      api_invoke_with_error_handling i method req resp
  invoke_next_with_error_handling (upgrading_client next) i method req resp = do
    req' ← assert (env.upgrade_request req)
    resp' ← assert (env.upgrade_response resp)
    r ←
        invoke_next_with_error_handling next i (replace_first method legacy_package new_package)
          (wrap_request cri112 req') resp'
    downgraded ← assert (env.downgrade_response r)
    assert (wrap_response resp downgraded)

  -- invoke of an autoClient
  unfoldable pub invoke : ℕ → Text → Request → Response → M (Response × Option Error)
  invoke i method req resp = do
    found ← on_slot i next_if_up (λ s. s)
    elim found [
      | none ↦ pure (resp, some not_connected)
      | some next ↦ do n ← assert next; invoke_next n i method req resp
    ]

  -- invokeWithErrorHandling of an autoClient
  unfoldable pub invoke_with_error_handling : ℕ → Text → Request → Response → M Response
  invoke_with_error_handling i method req resp = do
    found ← on_slot i next_if_up (λ s. s)
    elim found [
      | none ↦ fail not_connected
      | some next ↦ do n ← assert next; invoke_next_with_error_handling n i method req resp
    ]
