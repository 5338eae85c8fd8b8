-- ===== src/Client/Passing.antt =====
-- A client through which packets pass that nobody waits for, with its acknowledgement tables.
use meshquill.Protocol.Packet.{Packet}
use meshquill.Client.Packets.{pass_on, publish_event, retain_sync_response, update_tracking}
use meshquill.Client.State.{Client}
use meshquill.Client.Invariant.{WellFormed}
use meshquill.Client.Primitives.{tracked-WellFormed}
use meshquill.Client.Survival.{
  accepts, acknowledges, count, Held, Held-completed, Held-more, Held-pending, IsOther,
}
use meshquill.Domain.{Ack, CommandTracking}
use meshquill.Common.{All, List, [], arith, refl, ℕ, ◌+◌, ◌∷◌, ◌≡◌, ◌≤◌}

module _ {F64 : Type 0} where
  -- A client that passes packets on, the first one first.
  abbrev pub passed : List (Packet F64) → Client F64 → Client F64
  passed [] c = c
  passed (packet ∷ packets) c = passed packets (pass_on packet c)

  pub passed-reads :
      (packets : List (Packet F64)) (c : Client F64)
      → ((passed packets c).arrivals ≡ c.arrivals) × ((passed packets c).connected ≡ c.connected)
  unfolding pass_on publish_event update_tracking retain_sync_response
  passed-reads [] c = (refl, refl)
  passed-reads (packet ∷ packets) c = passed-reads packets (pass_on packet c)

  -- Both tables, and the place of a code in one of them.
  unfoldable pub AreWellFormed : Client F64 → Type 0
  AreWellFormed c = WellFormed c.pending × WellFormed c.completed

  pass_on-WellFormed :
      (packet : Packet F64) (c : Client F64) → AreWellFormed c → AreWellFormed (pass_on packet c)
  unfolding pass_on publish_event update_tracking retain_sync_response AreWellFormed
  pass_on-WellFormed packet c w = tracked-WellFormed packet c.pending c.completed w.0 w.1

  pub passed-pending :
      {code : List ℕ} {asked : CommandTracking} (n : ℕ) (packets : List (Packet F64))
      (c : Client F64)
      → AreWellFormed c
      → All (IsOther code) packets
      → n + count accepts packets ≤ 255
      → Held code asked n c.pending.acks
      → AreWellFormed (passed packets c) × Held code asked 255 (passed packets c).pending.acks
  unfolding pass_on publish_event update_tracking retain_sync_response AreWellFormed
  passed-pending n [] c w o l h = (w, Held-more (omega arith) h)
  passed-pending n (packet ∷ packets) c w o l h =
      passed-pending (n + accepts packet) packets (pass_on packet c) (pass_on-WellFormed packet c w)
        o.1 (omega arith) (Held-pending packet c.pending c.completed w.0 o.0 (omega arith) h)

  pub passed-completed :
      {code : List ℕ} {a : Ack} (n : ℕ) (packets : List (Packet F64)) (c : Client F64)
      → AreWellFormed c
      → All (IsOther code) packets
      → n + count acknowledges packets ≤ 255
      → Held code a n c.completed.acks
      → AreWellFormed (passed packets c) × Held code a 255 (passed packets c).completed.acks
  unfolding pass_on publish_event update_tracking retain_sync_response AreWellFormed
  passed-completed n [] c w o l h = (w, Held-more (omega arith) h)
  passed-completed n (packet ∷ packets) c w o l h =
      passed-completed (n + acknowledges packet) packets (pass_on packet c)
        (pass_on-WellFormed packet c w) o.1 (omega arith)
        (Held-completed packet c.pending c.completed w.1 o.0 (omega arith) h)
