-- ===== src/Client/State.antt =====
-- The client's state, with the transport as a script of what it will do, and calls on it.
--
-- A duration is a number of nanoseconds. The script says what each read gives and how long after
-- the read before, what each call of `try_read` finds, and how each write, connect and disconnect
-- ends (a script that has run out gives no more packets, and success). Writes take no time. The
-- broadcast channel is the list of all events sent so far.
use meshquill.Common.{
  Bool, List, Option, Outcome, [], err, false, if◌then◌else◌, none, ok, some, ℕ, ◌*◌, ◌++◌, ◌∷◌,
  ltb, ◌==◌, ◌||◌, panic,
}
use meshquill.Error.{CoreError, TransportError, invalid_argument}
use meshquill.Domain.{Message, Ack, CommandTracking, Event}
use meshquill.Client.Tables.{Table, empty_table}

pub data ReadySync : Type 0 where
  message : Message → ReadySync
  no_more_messages error : ReadySync

pub data SyncState : Type 0 where
  idle awaiting_response : SyncState

-- What a read of the transport ends with.
pub data Read : Type 0 where
  packet : List ℕ → Read
  closed : Read
  failed : TransportError → Read

pub record Arrival : Type 0 where
  pub delay : ℕ
  pub what : Read

pub record Client (F64 : Type 0) : Type 0 where
  pub request_timeout : ℕ
  pub connected : Bool
  pub pending : Table CommandTracking
  pub completed : Table Ack
  pub next_message_observation_id : ℕ
  pub sync_state : SyncState
  pub deferred_sync : Option ReadySync
  -- the events sent, and the payloads given to `Transport::write`
  pub events : List (Event F64)
  pub written : List (List ℕ)
  -- the transport
  pub clock : ℕ
  pub arrivals : List Arrival
  -- `none` stands for `ReadyRead::Pending`
  pub buffered : List (Option Read)
  pub write_ends : List (Option TransportError)
  pub connect_ends : List (Option TransportError)
  pub disconnect_ends : List (Option TransportError)

-- The transport's script.
pub record Script : Type 0 where
  pub arrivals : List Arrival
  pub buffered : List (Option Read)
  pub write_ends : List (Option TransportError)
  pub connect_ends : List (Option TransportError)
  pub disconnect_ends : List (Option TransportError)

abbrev pub seconds : ℕ → ℕ
seconds n = n * 1000000000

abbrev pub client_request_timeout : ℕ
client_request_timeout = seconds 5

abbrev pub max_operation_timeout : ℕ
max_operation_timeout = seconds 86400

unfoldable pub with_valid_timeout : {F64 : Type 0} → Script → ℕ → Client F64
with_valid_timeout script request_timeout = record {
  request_timeout = request_timeout;
  connected = false;
  pending = empty_table;
  completed = empty_table;
  next_message_observation_id = 1;
  sync_state = SyncState.idle;
  deferred_sync = none;
  events = [];
  written = [];
  clock = 0;
  arrivals = script.arrivals;
  buffered = script.buffered;
  write_ends = script.write_ends;
  connect_ends = script.connect_ends;
  disconnect_ends = script.disconnect_ends;
}

unfoldable pub new : {F64 : Type 0} → Script → Client F64
unfolding with_valid_timeout
new script = with_valid_timeout script client_request_timeout

unfoldable pub validate_operation_timeout : ℕ → Outcome CoreError (Unit {0})
validate_operation_timeout timeout =
    if timeout == 0 || ltb max_operation_timeout timeout
    then err (invalid_argument "timeout")
    else ok tt

unfoldable pub with_timeout : {F64 : Type 0} → Script → ℕ → Outcome CoreError (Client F64)
unfolding validate_operation_timeout with_valid_timeout
with_timeout script request_timeout = elim (validate_operation_timeout request_timeout) [
  | ok done ↦ ok (with_valid_timeout script request_timeout)
  | err e ↦ err e
  | panic ↦ panic
]

-- A call of a method. The client comes back after an error too.
abbrev pub Call : Type 0 → Type 0 → Type 0
Call F64 A = Client F64 → Outcome CoreError A × Client F64

module _ {F64 : Type 0} where
  abbrev pub pure : {A : Type 0} → A → Call F64 A
  pure a c = (ok a, c)

  abbrev pub raise : {A : Type 0} → CoreError → Call F64 A
  raise e c = (err e, c)

  abbrev pub lift : {A : Type 0} → Outcome CoreError A → Call F64 A
  lift result c = (result, c)

  abbrev pub modify : (Client F64 → Client F64) → Call F64 (Unit {0})
  modify f c = (ok tt, f c)

  -- What follows a call that ended with `end` in the state `c`.
  abbrev pub proceed :
      {A B : Type 0}
      → (A → Call F64 B)
      → Outcome CoreError A
      → Client F64
      → Outcome CoreError B × Client F64
  proceed f (ok a) c = f a c
  proceed f (err e) c = (err e, c)
  proceed f panic c = (panic, c)

infixl 5 ◌>>=◌ ◌>>◌
abbrev pub ◌>>=◌ : {F64 : Type 0} {A B : Type 0} → Call F64 A → (A → Call F64 B) → Call F64 B
◌>>=◌ m f c = proceed f (m c).0 (m c).1

abbrev pub ◌>>◌ : {F64 : Type 0} {A B : Type 0} → Call F64 A → Call F64 B → Call F64 B
m >> k = m >>= λ _. k

-- `?` after a call that returned no value, with another error.
abbrev pub ended : {F64 : Type 0} → Option TransportError → Call F64 (Unit {0})
ended none = pure tt
ended (some e) = raise (CoreError.transport e)

-- The next answer of a script.
unfoldable pub answer : List (Option TransportError) → Option TransportError
answer [] = none
answer (a ∷ answers) = a

unfoldable pub later : List (Option TransportError) → List (Option TransportError)
later [] = []
later (a ∷ answers) = answers

module _ {F64 : Type 0} where
  unfoldable pub clear_tracking : Client F64 → Client F64
  clear_tracking c = record c { pending = empty_table; completed = empty_table }

  unfoldable pub clear_sync_tracking : Client F64 → Client F64
  clear_sync_tracking c = record c { sync_state = SyncState.idle; deferred_sync = none }

  abbrev pub publish_domain_event : Event F64 → Client F64 → Client F64
  publish_domain_event event c = record c { events = c.events ++ (event ∷ []) }

  unfoldable pub mark_disconnected : Client F64 → Client F64
  unfolding clear_tracking clear_sync_tracking
  mark_disconnected c =
      let cleared = clear_sync_tracking (clear_tracking c) in
      record cleared {
        connected = false;
        events = c.events ++ (if c.connected then Event.disconnected ∷ [] else []);
      }

  unfoldable pub ensure_connected : Call F64 (Unit {0})
  ensure_connected c = (if c.connected then ok tt else err CoreError.disconnected, c)

  -- `Transport::connect` and `ReconnectableTransport::reconnect`, and `Transport::disconnect`
  unfoldable pub transport_connect : Call F64 (Unit {0})
  unfolding answer later
  transport_connect c =
      ended (answer c.connect_ends) (record c { connect_ends = later c.connect_ends })

  unfoldable pub transport_disconnect : Call F64 (Unit {0})
  unfolding answer later
  transport_disconnect c =
      ended (answer c.disconnect_ends) (record c { disconnect_ends = later c.disconnect_ends })
