-- ===== src/Proxy/World.antt =====
-- The state that the requests to one proxy share, and what happens to it between the critical
-- sections of a request: each takes the next batch of events of a schedule, which stands for the
-- goroutines that dial and for the other requests.
pub use criproxy.Object.Version.{Version, cri19, cri112}
unfoldable pub use criproxy.Object.Version.{is_version}
use criproxy.Prelude.{
  ℕ, zero, suc, false, Option, none, some, List, [], ◌∷◌, if◌then◌else◌, ltb, get_elem?,
}
use criproxy.Text.{Text}
use criproxy.Errors.{Error}
use criproxy.Connection.{Connection, connect, dial_succeeds, stop, handle_error}
use criproxy.Object.Requests.{Request}

-- The client behind an autoClient: an apiClient of the version, or an upgradingClient over it.
pub data Next : Type 0 where
  api_client : Version → Next
  upgrading_client : Next → Next

-- What changes of an autoClient.
pub record Slot : Type 0 where
  pub connection : Connection
  pub next : Option Next

pub data Event : Type 0 where
  -- the dialing of a client succeeds, and its probe found the client behind
  dialed : ℕ → Next → Event
  -- another request connects to a client, or handles an error of one
  connects stops : ℕ → Event
  fails : ℕ → Error → Event

-- A call of grpc.Invoke: the client, its gRPC connection, the method and the raw request.
pub record Call : Type 0 where
  pub client : ℕ
  pub conn : Option ℕ
  pub method : Text
  pub req : Request

pub record World : Type 0 where
  pub slots : List Slot
  pub schedule : List (List Event)
  -- the calls made so far, the newest first
  pub log : List Call

-- The i-th element changed; out of range nothing is.
unfoldable pub modify {ℓ} : {A : Type ℓ} → ℕ → (A → A) → List A → List A
modify i f [] = []
modify zero f (x ∷ xs) = f x ∷ xs
modify (suc i) f (x ∷ xs) = x ∷ modify i f xs

abbrev pub on_connection : (Connection → Connection) → Slot → Slot
on_connection f s = record s { connection = f s.connection }

-- Only a client that is being dialed can have its dialing succeed.
unfoldable pub finish_dialing : Next → Slot → Slot
finish_dialing next s =
    if ltb 0 s.connection.dialing
    then record s { connection = dial_succeeds s.connection; next = some next }
    else s

unfoldable pub apply_event : Event → List Slot → List Slot
apply_event (dialed i next) slots = modify i (finish_dialing next) slots
apply_event (connects i) slots = modify i (on_connection connect) slots
apply_event (stops i) slots = modify i (on_connection stop) slots
apply_event (fails i err) slots = modify i (on_connection (λ c. (handle_error err false c).0)) slots

unfoldable pub apply_events : List Event → List Slot → List Slot
apply_events [] slots = slots
apply_events (e ∷ es) slots = apply_events es (apply_event e slots)

-- How a request ends: `hang` is a receive from a channel that never gets a value.
pub data Out (A : Type 0) : Type 0 where
  ok : A → Out A
  err : Error → Out A
  hang panic : Out A

abbrev pub M : Type 0 → Type 0
M A = World → Out A × World

abbrev pub continue : {A B : Type 0} → Out A → (A → M B) → World → Out B × World
continue (ok a) f w = f a w
continue (err e) f w = (err e, w)
continue hang f w = (hang, w)
continue panic f w = (panic, w)

infixl 5 ◌>>=◌ ◌>>◌
unfoldable pub ◌>>=◌ : {A B : Type 0} → M A → (A → M B) → M B
◌>>=◌ m f w = let (o, w') = m w in continue o f w'

abbrev pub ◌>>◌ : {B : Type 0} → M (Unit {0}) → M B → M B
m >> k = m >>= λ _. k

abbrev pub pure : {A : Type 0} → A → M A
pure a w = (ok a, w)

abbrev pub fail : {A : Type 0} → Error → M A
fail e w = (err e, w)

-- A type assertion, or a conversion that panics where it fails.
abbrev pub assert : {A : Type 0} → Option A → M A
assert none w = (panic, w)
assert (some a) w = (ok a, w)

abbrev pub advance : List (List Event) → World → World
advance [] w = w
advance (b ∷ bs) w = record w { slots = apply_events b w.slots; schedule = bs }

-- The next batch of events.
unfoldable pub tick : M (Unit {0})
tick w = (ok tt, advance w.schedule w)

abbrev pub with_slot : {A : Type 0} → ℕ → (Slot → A) → (Slot → Slot) → Option Slot → M A
with_slot i result change none w = (panic, w)
with_slot i result change (some s) w = (ok (result s), record w { slots = modify i change w.slots })

-- A critical section on the connection of a client.
unfoldable pub on_slot : {A : Type 0} → ℕ → (Slot → A) → (Slot → Slot) → M A
on_slot i result change = do tick; λ w. with_slot i result change (get_elem? w.slots i) w
