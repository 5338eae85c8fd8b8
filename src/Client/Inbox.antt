-- ===== src/Client/Inbox.antt =====
-- The inbox and the acknowledgements: `sync_next_message` and `wait_for_ack`.
use meshquill.Protocol.Command.{encode}
use meshquill.Client.Wait.{Reaction, stop, go_on, refuse}
use meshquill.Client.State.{◌>>=◌, ◌>>◌, pure, raise, lift, Client, Call, Read, modify}
use meshquill.Client.Wait.{Reaction, stop, go_on, refuse}
use meshquill.Client.State.{◌>>=◌, ◌>>◌, pure, raise, lift, Client, Call, Read, modify}
use meshquill.Protocol.Packet.{Packet}
use meshquill.Domain.{Ack, Message}
use meshquill.Platform.{Platform}
use meshquill.Client.Tables.{take_ack, discard}
use meshquill.Client.Packets.{received, pass_on, publish_event}
use meshquill.Error.{protocol_invariant, CoreError}
use meshquill.Common.{
  List, Option, Outcome, [], if◌then◌else◌, none, ok, same_bytes, some, suc, zero, ℕ, ◌∷◌,
}
use meshquill.Client.Wait.{await, await_until, write_raw, Reaction, stop, go_on, refuse}
use meshquill.Client.State.{
  ensure_connected, ReadySync, SyncState, validate_operation_timeout, ◌>>=◌, ◌>>◌, pure, raise,
  lift, Client, Call, Read, modify,
}
use meshquill.Protocol.Command.Peers
use meshquill.Protocol.Command.{encode}

abbrev pub sync_failed : CoreError
sync_failed = protocol_invariant "sync next message returned an error"

unfoldable pub validate_optional : Option ℕ → Outcome CoreError (Unit {0})
unfolding validate_operation_timeout
validate_optional none = ok tt
validate_optional (some request_timeout) = validate_operation_timeout request_timeout

module _ {F64 : Type 0} where
  abbrev pub set_sync : SyncState → Client F64 → Client F64
  set_sync state c = record c { sync_state = state }

  unfoldable pub ready_sync_result : ReadySync → Call F64 (Option Message)
  ready_sync_result (ReadySync.message m) = pure (some m)
  ready_sync_result ReadySync.no_more_messages = pure none
  ready_sync_result ReadySync.error = raise sync_failed

  -- A message ends the request and is published.
  unfoldable pub synced : {A : Type 0} → Packet F64 → A → Call F64 A
  unfolding publish_event
  synced packet answer c = (ok answer, publish_event packet (set_sync SyncState.idle c))

  unfoldable pub sync_arms : Packet F64 → Reaction F64 (Option Message)
  unfolding synced pass_on
  sync_arms (Packet.contact_msg m) = stop (synced (Packet.contact_msg m) (some m))
  sync_arms (Packet.channel_msg m) = stop (synced (Packet.channel_msg m) (some m))
  sync_arms Packet.no_more_msgs = stop (modify (set_sync SyncState.idle) >> pure none)
  sync_arms (Packet.error code) = stop (modify (set_sync SyncState.idle) >> raise sync_failed)
  sync_arms other = go_on (pass_on other)

  -- A packet that `try_read` found; a late answer ends the loop.
  unfoldable pub drain_arms : Packet F64 → Call F64 (Option ReadySync) → Call F64 (Option ReadySync)
  unfolding synced pass_on
  drain_arms (Packet.contact_msg m) next =
      synced (Packet.contact_msg m) (some (ReadySync.message m))
  drain_arms (Packet.channel_msg m) next =
      synced (Packet.channel_msg m) (some (ReadySync.message m))
  drain_arms Packet.no_more_msgs next =
      modify (set_sync SyncState.idle) >> pure (some ReadySync.no_more_messages)
  drain_arms (Packet.error code) next =
      modify (set_sync SyncState.idle) >> pure (some ReadySync.error)
  drain_arms other next = modify (pass_on other) >> next

  unfoldable pub ack_arms : List ℕ → Packet F64 → Reaction F64 Ack
  unfolding pass_on publish_event discard
  ack_arms ack_code (Packet.ack a) =
      if same_bytes a.code ack_code
      then stop (λ c.
        (ok a, publish_event (Packet.ack a) (record c { pending = discard ack_code c.pending })))
      else go_on (pass_on (Packet.ack a))
  ack_arms ack_code (Packet.error code) =
      refuse (protocol_invariant "ack request returned an error")
  ack_arms ack_code other = go_on (publish_event other)

  -- The end of `wait_for_ack`: a code that was not acknowledged is forgotten.
  unfoldable pub acknowledged : List ℕ → Outcome CoreError Ack → Call F64 Ack
  unfolding discard
  acknowledged ack_code (ok a) c = (ok a, c)
  acknowledged ack_code result c = (
    result,
    record c { pending = discard ack_code c.pending; completed = discard ack_code c.completed },
  )

abbrev pub timeout_or : Option ℕ → ℕ → ℕ
timeout_or none d = d
timeout_or (some request_timeout) d = request_timeout

abbrev pub sync_ready_drain_capacity : ℕ
sync_ready_drain_capacity = 256

-- What `try_read` finds, and what is left for later.
unfoldable pub found : List (Option Read) → Option Read
found [] = none
found (r ∷ reads) = r

unfoldable pub left_buffered : List (Option Read) → List (Option Read)
left_buffered [] = []
left_buffered (r ∷ reads) = reads

module _ (p : Platform) where
  open p use {F64}

  unfoldable pub wait_for_sync_response : Call F64 (Option Message)
  unfolding await sync_arms
  wait_for_sync_response = await p sync_arms

  -- The packet that `try_read` found, if any.
  unfoldable pub parse_found : Option Read → Call F64 (Option (Packet F64))
  unfolding received
  parse_found none = pure none
  parse_found (some read) = do packet ← received p read; pure (some packet)

  unfoldable pub try_read_packet : Call F64 (Option (Packet F64))
  unfolding found left_buffered parse_found
  try_read_packet c =
      parse_found (found c.buffered) (record c { buffered = left_buffered c.buffered })

  -- A round of the loop, and the rest of it.
  unfoldable pub drained :
      Call F64 (Option ReadySync) → Option (Packet F64) → Call F64 (Option ReadySync)
  unfolding drain_arms
  drained next none = pure none
  drained next (some packet) = drain_arms packet next

  -- The loop with `left` rounds after this one.
  unfoldable pub drain : ℕ → Call F64 (Option ReadySync)
  unfolding try_read_packet drained
  drain zero =
      try_read_packet
      >>= drained
          (raise (protocol_invariant "too many buffered packets before inbox synchronization"))
  drain (suc left) = try_read_packet >>= drained (drain left)

  unfoldable pub drain_ready_packets_before_sync : Call F64 (Option ReadySync)
  unfolding drain
  drain_ready_packets_before_sync = drain sync_ready_drain_capacity

  unfoldable pub request_sync : SyncState → Call F64 (Option Message)
  unfolding write_raw wait_for_sync_response Peers.sync_next_message encode
  request_sync SyncState.awaiting_response = wait_for_sync_response
  request_sync SyncState.idle = do
    modify (set_sync SyncState.awaiting_response)
    write_raw (encode Peers.sync_next_message)
    wait_for_sync_response

  unfoldable pub after_drain : Option ReadySync → Call F64 (Option Message)
  unfolding ready_sync_result request_sync
  after_drain (some ready) c = ready_sync_result ready c
  after_drain none c = request_sync c.sync_state c

  -- `sync_next_message` with the deferred answer.
  unfoldable pub sync_unless_deferred : Option ReadySync → Call F64 (Option Message)
  unfolding ready_sync_result drain_ready_packets_before_sync after_drain
  sync_unless_deferred (some ready) c = ready_sync_result ready (record c { deferred_sync = none })
  sync_unless_deferred none c = (drain_ready_packets_before_sync >>= after_drain) c

  unfoldable pub sync_next_message : Call F64 (Option Message)
  unfolding ensure_connected sync_unless_deferred
  sync_next_message = do ensure_connected; λ c. sync_unless_deferred c.deferred_sync c

  -- `wait_for_ack` after the look at the completed acknowledgements.
  unfoldable pub await_ack : List ℕ → ℕ → Option Ack → Call F64 Ack
  unfolding await_until ack_arms acknowledged
  await_ack ack_code timeout_at (some a) c = (ok a, c)
  await_ack ack_code timeout_at none c =
      let result = await_until p timeout_at (ack_arms ack_code) c in
      acknowledged ack_code result.0 result.1

  unfoldable pub wait_for_ack : List ℕ → Option ℕ → Call F64 Ack
  unfolding validate_optional ensure_connected take_ack await_ack
  wait_for_ack ack_code request_timeout = do
    lift (validate_optional request_timeout)
    ensure_connected
    λ c.
        let taken = take_ack ack_code c.completed in
        await_ack ack_code (timeout_or request_timeout c.request_timeout) taken.0
          (record c { completed = taken.1 })
