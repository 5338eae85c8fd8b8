-- ===== src/Client/Packets.antt =====
-- Reading and parsing packets, and what the client does with a packet that it passes on.
use meshquill.Common.{
  Outcome, List, Option, [], err, if◌then◌else◌, ltb, none, ok, panic, some, ℕ, ◌%◌, ◌+◌, ◌++◌, ◌-◌,
  ◌==◌, ◌^◌, ◌∷◌,
}
use meshquill.Error.{ParseError, CoreError}
use meshquill.Domain.{Ack, CommandTracking, Event}
use meshquill.Platform.{Platform}
use meshquill.Protocol.Packet.{Packet, into_event}
use meshquill.Protocol.Parse.{parse}
use meshquill.Client.Tables.{Table, discard, remember, take_ack}
use meshquill.Client.State.{Client, Call, Read, Arrival, ReadySync, SyncState, mark_disconnected}
use meshquill.Client.Checks.{is_disconnect_error}

-- The sync state and the deferred answer.
unfoldable pub kept : SyncState → Option ReadySync → Option ReadySync → SyncState × Option ReadySync
kept SyncState.awaiting_response (some ready) deferred = (SyncState.idle, some ready)
kept state ready deferred = (state, deferred)

-- The tables of pending and completed acknowledgements after a packet.
abbrev Tracked : Type 0
Tracked = Table CommandTracking × Table Ack

unfoldable pub completed_by : Ack → Option CommandTracking → Table Ack → Table Ack
unfolding remember
completed_by ack none completed = completed
completed_by ack (some tracking) completed = remember ack.code ack completed

-- The identifier after `id`; zero is left out.
unfoldable pub next_observation_id : ℕ → ℕ
next_observation_id id = let next = (id + 1) % 2 ^ 64 in if next == 0 then 1 else next

module _ {F64 : Type 0} where
  -- The answer to a sync request that a packet holds.
  unfoldable pub sync_answer : Packet F64 → Option ReadySync
  sync_answer (Packet.contact_msg m) = some (ReadySync.message m)
  sync_answer (Packet.channel_msg m) = some (ReadySync.message m)
  sync_answer Packet.no_more_msgs = some ReadySync.no_more_messages
  sync_answer (Packet.error code) = some ReadySync.error
  sync_answer other = none

  unfoldable pub retain_sync_response : Packet F64 → Client F64 → Client F64
  unfolding kept sync_answer
  retain_sync_response packet c =
      let k = kept c.sync_state (sync_answer packet) c.deferred_sync in
      record c { sync_state = k.0; deferred_sync = k.1 }

  abbrev pub event_list : Option (Event F64) → List (Event F64)
  event_list none = []
  event_list (some event) = event ∷ []

  unfoldable pub publish_event : Packet F64 → Client F64 → Client F64
  unfolding retain_sync_response into_event
  publish_event packet c = record (retain_sync_response packet c) {
    events = c.events ++ event_list (into_event packet);
  }

  unfoldable pub tracked : Packet F64 → Table CommandTracking → Table Ack → Tracked
  unfolding remember discard take_ack completed_by
  tracked (Packet.msg_sent destination_type expected_ack suggested_timeout_ms) pending completed = (
    remember expected_ack (record { ack_code = expected_ack; timeout_ms = suggested_timeout_ms })
        pending,
    discard expected_ack completed,
  )
  tracked (Packet.ack a) pending completed =
      let taken = take_ack a.code pending in (taken.1, completed_by a taken.0 completed)
  tracked other pending completed = (pending, completed)

  unfoldable pub update_tracking : Packet F64 → Client F64 → Client F64
  unfolding tracked
  update_tracking packet c =
      let t = tracked packet c.pending c.completed in record c { pending = t.0; completed = t.1 }

  -- A packet that no one waits for.
  unfoldable pub pass_on : Packet F64 → Client F64 → Client F64
  unfolding publish_event update_tracking
  pass_on packet c = update_tracking packet (publish_event packet c)

  -- A message takes the next identifier.
  unfoldable pub number : Packet F64 → ℕ → Packet F64 × ℕ
  unfolding next_observation_id
  number (Packet.contact_msg m) id =
      (Packet.contact_msg (record m { observation_id = some id }), next_observation_id id)
  number (Packet.channel_msg m) id =
      (Packet.channel_msg (record m { observation_id = some id }), next_observation_id id)
  number other id = (other, id)

-- `parse_packet` from the parser's result on.
unfoldable pub parsed : {F64 : Type 0} → Outcome ParseError (Packet F64) → Call F64 (Packet F64)
unfolding number
parsed (ok packet) c =
    let n = number packet c.next_message_observation_id in
    (ok n.0, record c { next_message_observation_id = n.1 })
parsed (err e) c = (err (CoreError.parse e), c)
parsed panic c = (panic, c)

-- What a read within `limit` gives, how long it takes, and what is left for later reads.
unfoldable pub next_read : ℕ → List Arrival → Option Read × ℕ × List Arrival
next_read limit [] = (none, limit, [])
next_read limit (a ∷ arrivals) =
    if ltb limit a.delay
    then (none, limit, record { delay = a.delay - limit; what = a.what } ∷ arrivals)
    else (some a.what, a.delay, arrivals)

module _ (p : Platform) where
  open p use {F64}

  unfoldable pub parse_packet : List ℕ → Call F64 (Packet F64)
  unfolding parsed
  parse_packet raw = parsed (parse p raw)

  -- `read_next_packet` from the end of the read on.
  unfoldable pub received : Read → Call F64 (Packet F64)
  unfolding parse_packet mark_disconnected is_disconnect_error
  received (Read.packet raw) c = parse_packet raw c
  received Read.closed c = (err CoreError.disconnected, mark_disconnected c)
  received (Read.failed e) c =
      (err (CoreError.transport e), if is_disconnect_error e then mark_disconnected c else c)

  -- A read that came, or none in time.
  unfoldable pub received_in_time : Option Read → Call F64 (Packet F64)
  unfolding received
  received_in_time none c = (err CoreError.timeout, c)
  received_in_time (some read) c = received read c

  -- `timeout(limit, self.read_next_packet())`
  unfoldable pub read_within : ℕ → Call F64 (Packet F64)
  unfolding next_read received_in_time
  read_within limit c =
      let r = next_read limit c.arrivals in
      received_in_time r.0 (record c { clock = c.clock + r.1; arrivals = r.2 })

  unfoldable pub read_next_packet_with_timeout : Call F64 (Packet F64)
  unfolding read_within
  read_next_packet_with_timeout c = read_within c.request_timeout c
