-- ===== src/Client/Rules.antt =====
-- Reading and writing keep the invariant, and so does a loop of reads whose arms do.
use meshquill.Protocol.Parse.{parse}
use meshquill.Protocol.Packet.{Packet}
use meshquill.Client.Primitives.{number_range, Valid-mark_disconnected}
use meshquill.Client.Checks.{is_disconnect_error, is_terminal_write_error}
use meshquill.Client.Packets.{
  parsed, next_read, parse_packet, read_within, received, received_in_time,
}
use meshquill.Error.{ParseError, TransportError}
use meshquill.Client.Invariant.{Stable, Keeps-pure, Keeps-raise, Fits, Keeps}
use meshquill.Platform.{Platform}
use meshquill.Client.Wait.{
  go_on, send_unless_awaiting, react, stop, Reaction, send_raw, transport_write, write_raw, wrote,
}
use meshquill.Common.{
  Outcome, err, ok, panic, All-append, Bool-cases, List, Option, [], arith, inl, inr, length, ltb,
  none, some, ℕ, ◌==◌, ◌∷◌,
}
use meshquill.Client.State.{Read, SyncState, answer, Client, Call}

module _ {F64 : Type 0} where
  -- A reaction that keeps the invariant.
  pub data Fine {A : Type 0} : Reaction F64 A → Type 0 where
    fine_stop : (call : Call F64 A) → Keeps call → Fine (stop call)
    fine_go : (change : Client F64 → Client F64) → Stable change → Fine (go_on change)

  pub Keeps-react :
      {A : Type 0} (r : Reaction F64 A) (next : Call F64 A)
      → Fine r
      → Keeps next
      → Keeps (react r next)
  Keeps-react (stop call) next (fine_stop _ k) n = record {
    valid = k.valid;
    connected = k.connected;
  }
  Keeps-react (go_on change) next (fine_go _ s) n = record {
    valid = λ c v h. n.valid (change c) (s.valid c v h) (s.connected c h);
    connected = λ c a h e. n.connected (change c) a (s.connected c h) e;
  }

  Runs-wrote : (o : Option TransportError) → Keeps {F64 = F64} (wrote o)
  unfolding wrote
  Runs-wrote none = Keeps-pure tt
  Runs-wrote (some e) = record {
    valid = λ c v h. elim (Bool-cases (is_terminal_write_error e)) [
      | inl q ↦ rw q (Valid-mark_disconnected c v)
      | inr q ↦ rw q v
    ];
    connected = λ c a h e. cc;
  }

  Keeps-transport_write :
      (payload : List ℕ) → Fits payload → Keeps {F64 = F64} (transport_write payload)
  unfolding transport_write
  Keeps-transport_write payload fits = record {
    valid = λ c v h.
        (Runs-wrote (answer c.write_ends)).valid _
          (record {
            pending_table = v.pending_table;
            completed_table = v.completed_table;
            id_range = v.id_range;
            sizes = All-append Fits c.written (payload ∷ []) v.sizes (fits, tt);
            cleared = v.cleared;
          })
          h;
    connected = λ c a h e. (Runs-wrote (answer c.write_ends)).connected _ a h e;
  }

  pub Keeps-write_raw : (payload : List ℕ) → Keeps {F64 = F64} (write_raw payload)
  unfolding write_raw
  Keeps-write_raw payload = elim (Bool-cases (length payload == 0)) [
    | inl e ↦ rw e (Keeps-raise _)
    | inr e ↦ elim (Bool-cases (ltb 176 (length payload))) [
      | inl q ↦ rw e (rw q (Keeps-raise _))
      | inr q ↦ rw e (rw q (Keeps-transport_write payload (ground arith)))
    ]
  ]

  pub Keeps-send_raw : (payload : List ℕ) → Keeps {F64 = F64} (send_raw payload)
  unfolding send_raw
  Keeps-send_raw payload = record {
    valid = λ c v h. (Keeps-unless c.sync_state).valid c v h;
    connected = λ c a h e. (Keeps-unless c.sync_state).connected c a h e;
  }
    where
      Keeps-unless : (state : SyncState) → Keeps {F64 = F64} (send_unless_awaiting state payload)
      Keeps-unless SyncState.idle = Keeps-write_raw payload
      Keeps-unless SyncState.awaiting_response = Keeps-raise _

-- The observation identifier stays in its range.
Keeps-parsed : {F64 : Type 0} (o : Outcome ParseError (Packet F64)) → Keeps (parsed o)
unfolding parsed
Keeps-parsed (ok packet) = record {
  valid = λ c v h. record {
    pending_table = v.pending_table;
    completed_table = v.completed_table;
    id_range = number_range packet c.next_message_observation_id v.id_range;
    sizes = v.sizes;
    cleared = v.cleared;
  };
  connected = λ c a h e. h;
}
Keeps-parsed (err e) = Keeps-raise _
Keeps-parsed panic = record { valid = λ c v h. v; connected = λ c a h e. cc }

module _ (p : Platform) where
  open p use {F64}

  pub Keeps-received : (read : Read) → Keeps (received p read)
  unfolding received parse_packet
  Keeps-received (Read.packet raw) = Keeps-parsed (parse p raw)
  Keeps-received Read.closed = record {
    valid = λ c v h. Valid-mark_disconnected c v;
    connected = λ c a h e. cc;
  }
  Keeps-received (Read.failed e) = record {
    valid = λ c v h. elim (Bool-cases (is_disconnect_error e)) [
      | inl q ↦ rw q (Valid-mark_disconnected c v)
      | inr q ↦ rw q v
    ];
    connected = λ c a h e. cc;
  }

  Keeps-in_time : (read : Option Read) → Keeps (received_in_time p read)
  unfolding received_in_time
  Keeps-in_time none = Keeps-raise _
  Keeps-in_time (some read) = Keeps-received read

  pub Keeps-read_within : (limit : ℕ) → Keeps (read_within p limit)
  unfolding read_within
  Keeps-read_within limit = record {
    valid = λ c v h. (Keeps-in_time (next_read limit c.arrivals).0).valid _ v h;
    connected = λ c a h e. (Keeps-in_time (next_read limit c.arrivals).0).connected _ a h e;
  }
