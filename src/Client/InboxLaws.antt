-- ===== src/Client/InboxLaws.antt =====
-- The inbox, the acknowledgements and the exchanges with a remote device keep the invariant.
use meshquill.Protocol.Command.Peers
use meshquill.Protocol.Command.{encode}
use meshquill.Client.SessionLaws.{Safe-guarded, Safe-bind, Safe}
use meshquill.Client.Loops.{Keeps-await_until, Fine-refuse, Keeps-await, Fine-pass_on}
use meshquill.Client.Wait.{await_until, write_raw}
use meshquill.Client.Packets.{received, publish_event, pass_on}
use meshquill.Domain.{Ack}
use meshquill.Client.Rules.{Keeps-write_raw, fine_go, Keeps-received, fine_stop, Fine}
use meshquill.Client.Primitives.{
  Stable-pass_on, Valid-forget, Stable-set_sync, Stable-publish_event,
}
use meshquill.Error.{protocol_invariant, CoreError}
use meshquill.Client.Tables.{take_ack, discard}
use meshquill.Protocol.Packet.{Packet}
use meshquill.Platform.{Platform}
use meshquill.Client.Inbox.{
  validate_optional, timeout_or, await_ack, sync_failed, wait_for_ack,
  drain_ready_packets_before_sync, found, after_drain, drain, drained, parse_found, request_sync,
  set_sync, sync_next_message, sync_unless_deferred, try_read_packet, wait_for_sync_response,
  ack_arms, acknowledged, drain_arms, ready_sync_result, sync_arms, synced,
}
use meshquill.Client.Invariant.{
  WellFormed-take_ack, Runs-ensure_connected, Keeps-modify, Keeps-raise, Runs-bind, Valid,
  Keeps-bind, Keeps-pure, Runs, WellFormed-discard, Keeps, Stable,
}
use meshquill.Common.{
  true, ◌≡◌, Bool-cases, List, Option, Outcome, err, inl, inr, none, ok, panic, same_bytes, some,
  suc, zero, ℕ,
}
use meshquill.Client.State.{
  ensure_connected, Read, SyncState, ReadySync, ◌>>◌, pure, raise, lift, Client, Call, modify,
}

module _ {F64 : Type 0} where
  Keeps-sync_idle :
      {A : Type 0} (next : Call F64 A)
      → Keeps next
      → Keeps (modify (set_sync SyncState.idle) >> next)
  Keeps-sync_idle next k =
      Keeps-bind (λ _. next) (λ _. k) (modify (set_sync SyncState.idle))
        (Keeps-modify (set_sync SyncState.idle) (Stable-set_sync SyncState.idle))

  Keeps-synced : {A : Type 0} (packet : Packet F64) (a : A) → Keeps (synced packet a)
  unfolding synced
  Keeps-synced packet a = record {
    valid = λ c v h.
        (Stable-publish_event packet).valid (set_sync SyncState.idle c)
          ((Stable-set_sync SyncState.idle).valid c v h) h;
    connected = λ c b h e. (Stable-publish_event packet).connected (set_sync SyncState.idle c) h;
  }

  Keeps-ready_sync_result : (ready : ReadySync) → Keeps {F64 = F64} (ready_sync_result ready)
  unfolding ready_sync_result
  Keeps-ready_sync_result (ReadySync.message m) = Keeps-pure (some m)
  Keeps-ready_sync_result ReadySync.no_more_messages = Keeps-pure none
  Keeps-ready_sync_result ReadySync.error = Keeps-raise sync_failed

  Fine-sync_arms : (packet : Packet F64) → Fine (sync_arms packet)
  unfolding sync_arms
  Fine-sync_arms (Packet.contact_msg m) = fine_stop _ (Keeps-synced (Packet.contact_msg m) (some m))
  Fine-sync_arms (Packet.channel_msg m) = fine_stop _ (Keeps-synced (Packet.channel_msg m) (some m))
  Fine-sync_arms Packet.no_more_msgs = fine_stop _ (Keeps-sync_idle (pure none) (Keeps-pure none))
  Fine-sync_arms (Packet.error code) =
      fine_stop _ (Keeps-sync_idle (raise sync_failed) (Keeps-raise sync_failed))
  Fine-sync_arms other = Fine-pass_on other

  Keeps-drain_arms :
      (packet : Packet F64) (next : Call F64 (Option ReadySync))
      → Keeps next
      → Keeps (drain_arms packet next)
  unfolding drain_arms
  Keeps-drain_arms (Packet.contact_msg m) next k =
      Keeps-synced (Packet.contact_msg m) (some (ReadySync.message m))
  Keeps-drain_arms (Packet.channel_msg m) next k =
      Keeps-synced (Packet.channel_msg m) (some (ReadySync.message m))
  Keeps-drain_arms Packet.no_more_msgs next k =
      Keeps-sync_idle _ (Keeps-pure (some ReadySync.no_more_messages))
  Keeps-drain_arms (Packet.error code) next k =
      Keeps-sync_idle _ (Keeps-pure (some ReadySync.error))
  Keeps-drain_arms other next k =
      Keeps-bind (λ _. next) (λ _. k) (modify (pass_on other))
        (Keeps-modify (pass_on other) (Stable-pass_on other))

  Stable-discard_pending :
      (code : List ℕ) → Stable {F64 = F64} (λ c. record c { pending = discard code c.pending })
  Stable-discard_pending code = record {
    valid = λ c v h. record {
      pending_table = WellFormed-discard code c.pending v.pending_table;
      completed_table = v.completed_table;
      id_range = v.id_range;
      sizes = v.sizes;
      cleared = λ n. cc;
    };
    connected = λ c h. h;
  }

  -- The acknowledgement that was waited for.
  Keeps-matched :
      (code : List ℕ) (a : Ack)
      → Keeps {F64 = F64} (λ c.
        (ok a, publish_event (Packet.ack a) (record c { pending = discard code c.pending })))
  Keeps-matched code a = record {
    valid = λ c v h.
        (Stable-publish_event (Packet.ack a)).valid (record c { pending = discard code c.pending })
          ((Stable-discard_pending code).valid c v h) h;
    connected = λ c b h e.
        (Stable-publish_event (Packet.ack a)).connected
          (record c { pending = discard code c.pending }) h;
  }

  Fine-ack_arms : (code : List ℕ) (packet : Packet F64) → Fine (ack_arms code packet)
  unfolding ack_arms
  Fine-ack_arms code (Packet.ack a) = elim (Bool-cases (same_bytes a.code code)) [
    | inl e ↦ rw e (fine_stop _ (Keeps-matched code a))
    | inr e ↦ rw e (Fine-pass_on (Packet.ack a))
  ]
  Fine-ack_arms code (Packet.error e) =
      Fine-refuse (protocol_invariant "ack request returned an error")
  Fine-ack_arms code other = fine_go (publish_event other) (Stable-publish_event other)

  Valid-acknowledged :
      (code : List ℕ) (o : Outcome CoreError Ack) (c : Client F64)
      → Valid c
      → Valid (acknowledged code o c).1
  unfolding acknowledged
  Valid-acknowledged code (ok a) c v = v
  Valid-acknowledged code (err e) c v = Valid-forget code c v
  Valid-acknowledged code panic c v = Valid-forget code c v

module _ (p : Platform) where
  open p use {F64}

  Keeps-parse_found : (read : Option Read) → Keeps (parse_found p read)
  unfolding parse_found
  Keeps-parse_found none = Keeps-pure none
  Keeps-parse_found (some read) =
      Keeps-bind (λ packet. pure (some packet)) (λ packet. Keeps-pure (some packet))
        (received p read) (Keeps-received p read)

  Keeps-try_read : Keeps (try_read_packet p)
  unfolding try_read_packet
  Keeps-try_read = record {
    valid = λ c v h. (Keeps-parse_found (found c.buffered)).valid _ v h;
    connected = λ c a h e. (Keeps-parse_found (found c.buffered)).connected _ a h e;
  }

  Keeps-drained :
      (next : Call F64 (Option ReadySync))
      → Keeps next
      → (o : Option (Packet F64)) → Keeps (drained p next o)
  unfolding drained
  Keeps-drained next k none = Keeps-pure none
  Keeps-drained next k (some packet) = Keeps-drain_arms packet next k

  Keeps-drain : (left : ℕ) → Keeps (drain p left)
  unfolding drain
  Keeps-drain zero =
      Keeps-bind (drained p _) (Keeps-drained _ (Keeps-raise _)) (try_read_packet p) Keeps-try_read
  Keeps-drain (suc left) =
      Keeps-bind (drained p (drain p left)) (Keeps-drained (drain p left) (Keeps-drain left))
        (try_read_packet p) Keeps-try_read

  Keeps-wait_sync : Keeps (wait_for_sync_response p)
  unfolding wait_for_sync_response
  Keeps-wait_sync = Keeps-await p sync_arms Fine-sync_arms

  Keeps-request_sync : (state : SyncState) → Keeps (request_sync p state)
  unfolding request_sync
  Keeps-request_sync SyncState.awaiting_response = Keeps-wait_sync
  Keeps-request_sync SyncState.idle =
      Keeps-bind (λ _. write_raw (encode Peers.sync_next_message) >> wait_for_sync_response p)
        (λ _.
          Keeps-bind (λ _. wait_for_sync_response p) (λ _. Keeps-wait_sync)
            (write_raw (encode Peers.sync_next_message))
            (Keeps-write_raw (encode Peers.sync_next_message)))
        (modify (set_sync SyncState.awaiting_response))
        (Keeps-modify (set_sync SyncState.awaiting_response)
          (Stable-set_sync SyncState.awaiting_response))

  Keeps-after_drain : (o : Option ReadySync) → Keeps (after_drain p o)
  unfolding after_drain
  Keeps-after_drain (some ready) = Keeps-ready_sync_result ready
  Keeps-after_drain none = record {
    valid = λ c v h. (Keeps-request_sync c.sync_state).valid c v h;
    connected = λ c a h e. (Keeps-request_sync c.sync_state).connected c a h e;
  }

  Keeps-unless_deferred : (o : Option ReadySync) → Keeps (sync_unless_deferred p o)
  unfolding sync_unless_deferred drain_ready_packets_before_sync
  Keeps-unless_deferred (some ready) = record {
    valid = λ c v h.
        (Keeps-ready_sync_result ready).valid _
          (record {
            pending_table = v.pending_table;
            completed_table = v.completed_table;
            id_range = v.id_range;
            sizes = v.sizes;
            cleared = λ n. cc;
          })
          h;
    connected = λ c a h e. (Keeps-ready_sync_result ready).connected _ a h e;
  }
  Keeps-unless_deferred none =
      Keeps-bind (after_drain p) Keeps-after_drain (drain p 256) (Keeps-drain 256)

  pub Runs-sync_next_message : Runs (sync_next_message p)
  unfolding sync_next_message
  Runs-sync_next_message =
      Runs-bind (λ _ c. sync_unless_deferred p c.deferred_sync c)
        (λ _. record {
          valid = λ c v h. (Keeps-unless_deferred c.deferred_sync).valid c v h;
          connected = λ c a h e. (Keeps-unless_deferred c.deferred_sync).connected c a h e;
        })
        ensure_connected Runs-ensure_connected

  Valid-await_ack :
      (code : List ℕ) (limit : ℕ) (o : Option Ack) (c : Client F64)
      → Valid c
      → c.connected ≡ true
      → Valid (await_ack p code limit o c).1
  unfolding await_ack
  Valid-await_ack code limit (some a) c v h = v
  Valid-await_ack code limit none c v h =
      let result = await_until p limit (ack_arms code) c in
      Valid-acknowledged code result.0 result.1
        ((Keeps-await_until p (ack_arms code) (Fine-ack_arms code) limit).valid c v h)

  taken-Valid :
      (code : List ℕ) (c : Client F64)
      → Valid c
      → c.connected ≡ true
      → Valid (record c { completed = (take_ack code c.completed).1 })
  taken-Valid code c v h = record {
    pending_table = v.pending_table;
    completed_table = WellFormed-take_ack code c.completed v.completed_table;
    id_range = v.id_range;
    sizes = v.sizes;
    cleared = λ n. cc;
  }

  pub Safe-wait_for_ack : (code : List ℕ) (limit : Option ℕ) → Safe (wait_for_ack p code limit)
  unfolding wait_for_ack
  Safe-wait_for_ack code limit =
      let body : Call F64 Ack = λ c.
        await_ack p code (timeout_or limit c.request_timeout) (take_ack code c.completed).0
          (record c { completed = (take_ack code c.completed).1 }) in
      Safe-bind (λ _. ensure_connected >> body)
        (λ _. Safe-guarded body (λ c v h.
          Valid-await_ack code (timeout_or limit c.request_timeout) (take_ack code c.completed).0
            (record c { completed = (take_ack code c.completed).1 }) (taken-Valid code c v h) h))
        (lift (validate_optional limit)) (λ c v. v)
