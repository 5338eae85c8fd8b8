-- ===== src/Client/Wait.antt =====
-- Sending a command and waiting for its answer.
--
-- A loop of reads is a recursion over the script of what is still to arrive: each round reads once,
-- and a read when nothing is left to arrive ends in a timeout.
use Prim.Native.Nat.{max}
use meshquill.Client.State.{◌>>=◌, ◌>>◌}
use meshquill.Domain.{CommandTracking}
use meshquill.Client.Tables.{discard, remember}
use meshquill.Client.Checks.{is_terminal_write_error}
use meshquill.Platform.{Platform}
use meshquill.Protocol.Packet.{Packet}
use meshquill.Client.Packets.{read_within, pass_on}
use meshquill.Error.{oversized_packet_payload, TransportError, protocol_invariant, CoreError}
use meshquill.Common.{
  Bool, List, Option, String, [], err, false, if◌then◌else◌, length, ltb, min, none, ok, some, true,
  ℕ, ◌*◌, ◌++◌, ◌+◌, ◌-◌, ◌==◌, ◌∷◌,
}
use meshquill.Client.State.{
  later, transport_disconnect, SyncState, answer, ensure_connected, mark_disconnected, Client, Call,
  raise, pure, modify, seconds, Arrival,
}
use meshquill.Protocol.Command.{max_inner_payload, Command, encode}

-- What a loop does with a packet: it ends with a call, or changes the client and reads on.
pub data Reaction (F64 : Type 0) (A : Type 0) : Type 0 where
  stop : Call F64 A → Reaction F64 A
  go_on : (Client F64 → Client F64) → Reaction F64 A

abbrev pub react : {F64 A : Type 0} → Reaction F64 A → Call F64 A → Call F64 A
react (stop call) next c = call c
react (go_on change) next c = next (change c)

-- The arms of a loop that refuse, and the arm that passes the packet on.
module _ {F64 A : Type 0} where
  abbrev pub refuse : CoreError → Reaction F64 A
  refuse e = stop (raise e)

  -- `Packet::Error(_) => return Err(..)`
  unfoldable pub unless_error : CoreError → Packet F64 → Reaction F64 A
  unfolding pass_on
  unless_error e (Packet.error code) = refuse e
  unless_error e other = go_on (pass_on other)

  -- `Packet::Error(code) => return Err(CoreError::DeviceRejected { .. })`
  unfoldable pub unless_rejected : String → Packet F64 → Reaction F64 A
  unfolding pass_on
  unless_rejected operation (Packet.error code) = refuse (CoreError.device_rejected operation code)
  unless_rejected operation other = go_on (pass_on other)

  -- The same, and `Packet::Disabled => return Err(CoreError::FeatureDisabled { .. })`
  unfoldable pub unless_refused : String → String → Packet F64 → Reaction F64 A
  unfolding unless_rejected
  unless_refused feature operation Packet.disabled = refuse (CoreError.feature_disabled feature)
  unless_refused feature operation other = unless_rejected operation other

-- `PacketWait`, whose packet is always the one that was looked at.
pub data PacketWait (R : Type 0) : Type 0 where
  ready : R → PacketWait R
  continue : PacketWait R
  fail : CoreError → PacketWait R

-- The arms of a command that waits for a value, given what was taken from the packet.
module _ {F64 A : Type 0} where
  unfoldable pub expected : String → Packet F64 → Option A → Reaction F64 A
  unfolding unless_refused
  expected error_context packet none = unless_refused error_context error_context packet
  expected error_context packet (some value) = stop (pure value)

  unfoldable pub waited : String → Packet F64 → PacketWait A → Reaction F64 A
  unfolding unless_refused
  waited operation packet (PacketWait.ready value) = stop (pure value)
  waited operation packet (PacketWait.fail e) = stop (raise e)
  waited operation packet PacketWait.continue = unless_refused operation operation packet

-- The end of a write.
unfoldable pub wrote : {F64 : Type 0} → Option TransportError → Call F64 (Unit {0})
unfolding mark_disconnected is_terminal_write_error
wrote none c = (ok tt, c)
wrote (some e) c =
    (err (CoreError.transport e), if is_terminal_write_error e then mark_disconnected c else c)

module _ {F64 : Type 0} where
  unfoldable pub transport_write : List ℕ → Call F64 (Unit {0})
  unfolding wrote answer later
  transport_write payload c =
      wrote (answer c.write_ends)
        (record c { written = c.written ++ (payload ∷ []); write_ends = later c.write_ends })

  unfoldable pub write_raw : List ℕ → Call F64 (Unit {0})
  unfolding transport_write
  write_raw payload =
      if length payload == 0
      then raise (protocol_invariant "cannot send an empty companion packet")
      else if ltb max_inner_payload (length payload)
      then raise (CoreError.parse (oversized_packet_payload (length payload) max_inner_payload))
      else transport_write payload

  -- `send_raw` in a sync state.
  unfoldable pub send_unless_awaiting : SyncState → List ℕ → Call F64 (Unit {0})
  unfolding write_raw
  send_unless_awaiting SyncState.awaiting_response payload = raise (
      protocol_invariant
        "a prior inbox synchronization response must be reconciled before another command")
  send_unless_awaiting SyncState.idle payload = write_raw payload

  unfoldable pub send_raw : List ℕ → Call F64 (Unit {0})
  unfolding send_unless_awaiting
  send_raw payload c = send_unless_awaiting c.sync_state payload c

  unfoldable pub send_only : Command → Call F64 (Unit {0})
  unfolding ensure_connected send_raw encode
  send_only command = do ensure_connected; send_raw (encode command)

  unfoldable pub send_disconnect_command : Command → Call F64 (Unit {0})
  unfolding ensure_connected send_raw encode transport_disconnect mark_disconnected
  send_disconnect_command command = do
    ensure_connected
    send_raw (encode command)
    modify (λ c. mark_disconnected (transport_disconnect c).1)

  unfoldable pub remote_response_timeout : Client F64 → ℕ → ℕ
  remote_response_timeout c suggested_timeout_ms =
      min (max c.request_timeout (suggested_timeout_ms * 1000000 + seconds 1)) (seconds 60)

module _ (p : Platform) {A : Type 0} where
  open p use {F64}

  -- A loop of reads, each within a limit that may depend on the client.
  unfoldable pub await_by :
      (Client F64 → ℕ) → (Packet F64 → Reaction F64 A) → List Arrival → Call F64 A
  unfolding read_within
  await_by limit arms [] c = (read_within p (limit c) >>= λ packet. raise CoreError.timeout) c
  await_by limit arms (a ∷ arrivals) c =
      (read_within p (limit c) >>= λ packet. react (arms packet) (await_by limit arms arrivals)) c

  -- Each read has the request's time.
  unfoldable pub await : (Packet F64 → Reaction F64 A) → Call F64 A
  unfolding await_by
  await arms c = await_by (λ now. now.request_timeout) arms c.arrivals c

  -- All reads together have the time `limit`.
  unfoldable pub await_until : ℕ → (Packet F64 → Reaction F64 A) → Call F64 A
  unfolding await_by
  await_until limit arms c =
      let deadline = c.clock + limit in await_by (λ now. deadline - now.clock) arms c.arrivals c

  -- The arms of the loop of `send_command_expect`.
  unfoldable pub expecting : String → (Packet F64 → Option A) → Packet F64 → Reaction F64 A
  unfolding expected
  expecting error_context extract packet = expected error_context packet (extract packet)

  unfoldable pub send_command_expect : Command → String → (Packet F64 → Option A) → Call F64 A
  unfolding ensure_connected send_raw encode await expecting
  send_command_expect command error_context extract = do
    ensure_connected
    send_raw (encode command)
    await (expecting error_context extract)

  -- The arms of the loop of `wait_for_packet`.
  unfoldable pub waiting : String → (Packet F64 → PacketWait A) → Packet F64 → Reaction F64 A
  unfolding waited
  waiting operation extract packet = waited operation packet (extract packet)

  unfoldable pub wait_for_packet : ℕ → String → (Packet F64 → PacketWait A) → Call F64 A
  unfolding await_until waiting
  wait_for_packet response_timeout operation extract =
      await_until response_timeout (waiting operation extract)

module _ {F64 : Type 0} where
  abbrev pub ok_arms : Packet F64 → Reaction F64 (Unit {0})
  ok_arms (Packet.ok value) = stop (pure tt)
  ok_arms other = unless_refused "requested operation" "command" other

  -- `MsgSent` with or without tracking its acknowledgement.
  unfoldable pub sent_as : Bool → CommandTracking → Call F64 CommandTracking
  unfolding remember discard
  sent_as false tracking c = (ok tracking, c)
  sent_as true tracking c = (
    ok tracking,
    record c {
      pending = remember tracking.ack_code tracking c.pending;
      completed = discard tracking.ack_code c.completed;
    },
  )

  unfoldable pub msg_sent_arms : Bool → Packet F64 → Reaction F64 CommandTracking
  unfolding sent_as unless_rejected
  msg_sent_arms track_ack (Packet.msg_sent destination_type expected_ack suggested_timeout_ms) =
      stop
        (sent_as track_ack (record { ack_code = expected_ack; timeout_ms = suggested_timeout_ms }))
  msg_sent_arms track_ack other = unless_rejected "message send" other

module _ (p : Platform) where
  open p use {F64}

  unfoldable pub send_command_expect_ok : Command → Call F64 (Unit {0})
  unfolding ensure_connected send_raw encode await unless_refused
  send_command_expect_ok command = do ensure_connected; send_raw (encode command); await p ok_arms

  unfoldable pub send_command_expect_msg_sent_inner : Command → Bool → Call F64 CommandTracking
  unfolding ensure_connected send_raw encode await msg_sent_arms
  send_command_expect_msg_sent_inner command track_ack = do
    ensure_connected
    send_raw (encode command)
    await p (msg_sent_arms track_ack)

  unfoldable pub send_command_expect_msg_sent : Command → Call F64 CommandTracking
  unfolding send_command_expect_msg_sent_inner
  send_command_expect_msg_sent command = send_command_expect_msg_sent_inner command true

  unfoldable pub send_command_expect_msg_sent_untracked : Command → Call F64 CommandTracking
  unfolding send_command_expect_msg_sent_inner
  send_command_expect_msg_sent_untracked command = send_command_expect_msg_sent_inner command false
