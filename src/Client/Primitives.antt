-- ===== src/Client/Primitives.antt =====
-- The changes that a client makes keep its invariant.
use meshquill.Client.Inbox.{set_sync}
use meshquill.Domain.{Ack, CommandTracking}
use meshquill.Client.Tables.{retain_ne, remove_key, discard, take_ack, Table}
use meshquill.Client.Invariant.{
  WellFormed-take_ack, WellFormed-discard, WellFormed-remember, WellFormed, WellFormed-empty,
  Stable, Valid,
}
use meshquill.Protocol.Packet.{Packet}
use meshquill.Client.Packets.{
  next_observation_id, number, pass_on, update_tracking, completed_by, publish_event,
  retain_sync_response, tracked,
}
use meshquill.Client.State.{SyncState, Client, mark_disconnected}
use meshquill.Common.{List, Option, ap, arith, none, some, ℕ, ◌<◌, ◌^◌, ◌≤◌, refl}

completed_by-WellFormed :
    (a : Ack) (taken : Option CommandTracking) (completed : Table Ack)
    → WellFormed completed
    → WellFormed (completed_by a taken completed)
unfolding completed_by
completed_by-WellFormed a none completed w = w
completed_by-WellFormed a (some tracking) completed w = WellFormed-remember a.code a completed w

observation_range : (id : ℕ) → (1 ≤ next_observation_id id) × (next_observation_id id < 2 ^ 64)
unfolding next_observation_id
observation_range id = ground arith

module _ {F64 : Type 0} where
  pub Valid-mark_disconnected : (c : Client F64) → Valid c → Valid (mark_disconnected c)
  unfolding mark_disconnected
  Valid-mark_disconnected c v = record {
    pending_table = WellFormed-empty;
    completed_table = WellFormed-empty;
    id_range = v.id_range;
    sizes = v.sizes;
    cleared = λ h. (refl, refl, refl, refl);
  }

  Stable-retain : (packet : Packet F64) → Stable (retain_sync_response packet)
  unfolding retain_sync_response
  Stable-retain packet = record {
    valid = λ c v h. record {
      pending_table = v.pending_table;
      completed_table = v.completed_table;
      id_range = v.id_range;
      sizes = v.sizes;
      cleared = λ n. cc;
    };
    connected = λ c h. h;
  }

  pub Stable-publish_event : (packet : Packet F64) → Stable (publish_event packet)
  unfolding publish_event
  Stable-publish_event packet = record {
    valid = λ c v h. (Stable-retain packet).valid c v h;
    connected = λ c h. h;
  }

  pub tracked-WellFormed :
      (packet : Packet F64) (pending : Table CommandTracking) (completed : Table Ack)
      → WellFormed pending
      → WellFormed completed
      → WellFormed (tracked packet pending completed).0
        × WellFormed (tracked packet pending completed).1
  unfolding tracked completed_by
  tracked-WellFormed (Packet.msg_sent d code t) pending completed wp wc =
      (WellFormed-remember code _ pending wp, WellFormed-discard code completed wc)
  tracked-WellFormed (Packet.ack a) pending completed wp wc = (
    WellFormed-take_ack a.code pending wp,
    completed_by-WellFormed a (take_ack a.code pending).0 completed wc,
  )
  tracked-WellFormed other pending completed wp wc = (wp, wc)

  Stable-update_tracking : (packet : Packet F64) → Stable (update_tracking packet)
  unfolding update_tracking
  Stable-update_tracking packet = record {
    valid = λ c v h.
        let w = tracked-WellFormed packet c.pending c.completed v.pending_table v.completed_table in
        record {
          pending_table = w.0;
          completed_table = w.1;
          id_range = v.id_range;
          sizes = v.sizes;
          cleared = λ n. cc;
        };
    connected = λ c h. h;
  }

  Stable-compose : (f g : Client F64 → Client F64) → Stable f → Stable g → Stable (λ c. g (f c))
  Stable-compose f g sf sg = record {
    valid = λ c v h. sg.valid (f c) (sf.valid c v h) (sf.connected c h);
    connected = λ c h. sg.connected (f c) (sf.connected c h);
  }

  pub Stable-pass_on : (packet : Packet F64) → Stable (pass_on packet)
  unfolding pass_on
  Stable-pass_on packet =
      Stable-compose (publish_event packet) (update_tracking packet) (Stable-publish_event packet)
        (Stable-update_tracking packet)

  -- What `next_event` does with a packet.
  pub Stable-unsolicited :
      (packet : Packet F64) → Stable (λ c. update_tracking packet (retain_sync_response packet c))
  Stable-unsolicited packet =
      Stable-compose (retain_sync_response packet) (update_tracking packet) (Stable-retain packet)
        (Stable-update_tracking packet)

  pub Stable-set_sync : (state : SyncState) → Stable {F64 = F64} (set_sync state)
  Stable-set_sync state = record {
    valid = λ c v h. record {
      pending_table = v.pending_table;
      completed_table = v.completed_table;
      id_range = v.id_range;
      sizes = v.sizes;
      cleared = λ n. cc;
    };
    connected = λ c h. h;
  }

  -- A code that is no longer tracked; also after a disconnection.
  pub Valid-forget :
      (code : List ℕ) (c : Client F64)
      → Valid c
      → Valid (record c { pending = discard code c.pending; completed = discard code c.completed })
  unfolding discard remove_key retain_ne
  Valid-forget code c v = record {
    pending_table = WellFormed-discard code c.pending v.pending_table;
    completed_table = WellFormed-discard code c.completed v.completed_table;
    id_range = v.id_range;
    sizes = v.sizes;
    cleared =
        λ n. let (p, q, r, s) = v.cleared n in (ap (discard code) p, ap (discard code) q, r, s);
  }

  pub number_range :
      (packet : Packet F64) (id : ℕ)
      → (1 ≤ id) × (id < 2 ^ 64)
      → (1 ≤ (number packet id).1) × ((number packet id).1 < 2 ^ 64)
  unfolding number
  number_range (Packet.contact_msg m) id h = observation_range id
  number_range (Packet.channel_msg m) id h = observation_range id
  number_range other id h = h
