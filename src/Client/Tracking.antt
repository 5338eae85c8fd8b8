-- ===== src/Client/Tracking.antt =====
-- The acknowledgement tables as queues of the newest 256 codes, and the way of an acknowledgement
-- from the command that asks for it to the call that waits for it.
use meshquill.Client.Wait.{sent_as}
use meshquill.Client.Session.{next_unsolicited, emitted, unsolicited_if, next_event, unsolicited}
use meshquill.Client.Primitives.{tracked-WellFormed}
use meshquill.Client.Survival.{Held-own, accepts, acknowledges, count, lookup-Held, Held, IsOther}
use meshquill.Error.{CoreError}
use meshquill.Domain.{CommandTracking, Ack}
use meshquill.Client.State.{Read, Arrival, ◌>>◌, Client, Call, proceed}
use meshquill.Protocol.Packet.{into_event, Packet}
use meshquill.Client.Invariant.{WellFormed-discard, WellFormed-remember, Valid, WellFormed}
use meshquill.Client.TableLaws.{
  lookup-remembered, length-remembered, Distinct-remembered, take_ack_lem, remember_lem,
}
use meshquill.Client.Packets.{
  number, parsed, parse_packet, received, retain_sync_response, completed_by, tracked,
  update_tracking,
}
use meshquill.Client.Inbox.{timeout_or, validate_optional, await_ack, wait_for_ack}
use meshquill.Client.State.{ensure_connected, Client}
use meshquill.Protocol.Parse.{parse}
use meshquill.Client.Passing.{AreWellFormed, passed, passed-completed, passed-pending, passed-reads}
use meshquill.Platform.{Platform}
use meshquill.Client.Queue.{lookup-remove, discard_lem, table_of, keys, Distinct}
use meshquill.Client.Tables.{Table, discard, lookup, take_ack, remember, remove_key}
use meshquill.Common.{
  All, sym, ◌+◌, Option-cases, ap, err, inl, inr, ◌∙◌, List, Option, [], arith, drop, if◌then◌else◌,
  length, none, ok, refl, same_bytes, some, subst, true, ℕ, ◌++◌, ◌-◌, ◌∷◌, ◌≡◌, ◌≤◌,
}

-- What a table promises, without its map and order: a queue of distinct codes, the oldest first.
-- Adding a code drops its old entry and, when 256 others are there, the oldest.
abbrev pub without : {V : Type 0} → List ℕ → List (List ℕ × V) → List (List ℕ × V)
without code [] = []
without code ((k, v) ∷ q) = if same_bytes k code then without code q else (k, v) ∷ without code q

abbrev pub pushed : {V : Type 0} → List ℕ → V → List (List ℕ × V) → List (List ℕ × V)
pushed code v q = drop (length (without code q) - 255) (without code q) ++ ((code, v) ∷ [])

without-remove :
    {V : Type 0} (code : List ℕ) (q : List (List ℕ × V)) → remove_key code q ≡ without code q
unfolding remove_key
without-remove code [] = refl
without-remove code ((k, v) ∷ q) = ground (arith, without-remove code q)

-- The table of a queue with distinct codes does what the queue does: remembering a code gives the
-- table of the queue with the code added, taking one gives the code's value and the table of the
-- queue without it, discarding one gives the table of the queue without it, and the queue after
-- adding again has distinct codes, has at most 256 entries and gives the code its value.
pub tables-refine :
    {V : Type 0} (code : List ℕ) (v : V) (q : List (List ℕ × V))
    → Distinct (keys q)
    → (remember code v (table_of q) ≡ table_of (pushed code v q))
      × (take_ack code (table_of q) ≡ (lookup code q, table_of (without code q)))
      × (discard code (table_of q) ≡ table_of (without code q))
      × Distinct (keys (pushed code v q))
      × (length (pushed code v q) ≤ 256)
      × (lookup code (pushed code v q) ≡ some v)
tables-refine code v q h =
    subst
      (λ w.
        (remember code v (table_of q) ≡ table_of (drop (length w - 255) w ++ ((code, v) ∷ [])))
        × (take_ack code (table_of q) ≡ (lookup code q, table_of w))
        × (discard code (table_of q) ≡ table_of w)
        × Distinct (keys (drop (length w - 255) w ++ ((code, v) ∷ [])))
        × (length (drop (length w - 255) w ++ ((code, v) ∷ [])) ≤ 256)
        × (lookup code (drop (length w - 255) w ++ ((code, v) ∷ [])) ≡ some v))
      (without-remove code q)
      (
        remember_lem code v q h,
        take_ack_lem code q,
        discard_lem code q,
        Distinct-remembered code v q h,
        length-remembered code v q,
        lookup-remembered code v q,
      )

module _ {V : Type 0} (code : List ℕ) where
  take_ack-Held :
      {n : ℕ} {v : V} (t : Table V)
      → WellFormed t
      → Held code v n t.acks
      → (take_ack code t).0 ≡ some v
  take_ack-Held t w h =
      ap (λ q. (take_ack code q).0) w.shape
      ∙ ap (λ r. r.0) (take_ack_lem code t.acks)
      ∙ lookup-Held h

  lookup-take_ack : (t : Table V) → lookup code (take_ack code t).1.acks ≡ none
  unfolding take_ack
  lookup-take_ack t = elim (Option-cases (lookup code t.acks)) [
    | inl e ↦ rw (e, take_ack) (lookup-remove code t.acks)
    | inr (v, e) ↦ rw (e, take_ack) (lookup-remove code t.acks)
  ]

module _ (p : Platform) where
  open p use {F64}

  -- A completed acknowledgement is taken at once.
  wait_for_ack_ready :
      (code : List ℕ) (limit : Option ℕ) (a : Ack) (d : Client F64)
      → d.connected ≡ true
      → validate_optional limit ≡ ok tt
      → (take_ack code d.completed).0 ≡ some a
      → wait_for_ack p code limit d ≡ (ok a, record d { completed = (take_ack code d.completed).1 })
  unfolding wait_for_ack ensure_connected await_ack
  wait_for_ack_ready code limit a d h t e =
      let body : Call F64 Ack = λ x.
        await_ack p code (timeout_or limit x.request_timeout) (take_ack code x.completed).0
          (record x { completed = (take_ack code x.completed).1 }) in
      ap (λ o. proceed {A = Unit {0}} (λ _. ensure_connected >> body) o d) t
      ∙ ap
          (λ b.
            proceed {A = Unit {0}} (λ _. body) (if b then ok tt else err CoreError.disconnected) d)
          h
      ∙ ap
          (λ o.
            await_ack p code (timeout_or limit d.request_timeout) o
              (record d { completed = (take_ack code d.completed).1 }))
          e

  -- The client after `next_event` read an acknowledgement.
  after_ack : Ack → ℕ → List Arrival → Client F64 → Client F64
  after_ack a delay rest c =
      (unsolicited p (Packet.ack a) (record c { clock = c.clock + delay; arrivals = rest })).1

  next_event-ack :
      (a : Ack) (delay : ℕ) (raw : List ℕ) (rest : List Arrival) (c : Client F64)
      → c.connected ≡ true
      → c.arrivals ≡ record { delay = delay; what = Read.packet raw } ∷ rest
      → parse p raw ≡ ok (Packet.ack a)
      → next_event p c ≡ some (ok (into_event (Packet.ack a)), after_ack a delay rest c)
  unfolding next_event unsolicited_if next_unsolicited received parse_packet parsed number after_ack
      unsolicited emitted into_event
  next_event-ack a delay raw rest c online arrives parses =
      let c' : Client F64 = record c { clock = c.clock + delay; arrivals = rest } in
      ap (λ b. unsolicited_if p b c) online
      ∙ ap (λ arrivals. next_unsolicited p arrivals c) arrives
      ∙ ap (λ o. some (proceed (unsolicited p) (parsed o c').0 (parsed o c').1)) parses

  after_ack-Held :
      {asked : CommandTracking} (a : Ack) (delay : ℕ) (rest : List Arrival) (c : Client F64)
      → AreWellFormed c
      → Held a.code asked 255 c.pending.acks
      → AreWellFormed (after_ack a delay rest c)
        × Held a.code a 0 (after_ack a delay rest c).completed.acks
  unfolding after_ack unsolicited emitted into_event update_tracking tracked retain_sync_response
      completed_by AreWellFormed
  after_ack-Held {asked = asked} a delay rest c w h =
      let found : (take_ack a.code c.pending).0 ≡ some asked =
        take_ack-Held a.code c.pending w.0 h in
      (
        tracked-WellFormed {F64 = F64} (Packet.ack a) c.pending c.completed w.0 w.1,
        subst (λ o. Held a.code a 0 (completed_by a o c.completed).acks) (sym found)
            (Held-own a.code a c.completed w.1),
      )

  -- The acknowledgement in the table is taken by `wait_for_ack`.
  wait_for_ack-Held :
      {n : ℕ} (a : Ack) (limit : Option ℕ) (d : Client F64)
      → d.connected ≡ true
      → validate_optional limit ≡ ok tt
      → WellFormed d.completed
      → Held a.code a n d.completed.acks
      → ((wait_for_ack p a.code limit d).0 ≡ ok a)
        × ((wait_for_ack p a.code limit d).1.arrivals ≡ d.arrivals)
        × (lookup a.code (wait_for_ack p a.code limit d).1.completed.acks ≡ none)
  wait_for_ack-Held a limit d h t w k =
      let ends = wait_for_ack_ready a.code limit a d h t (take_ack-Held a.code d.completed w k) in
      (
        ap (λ r. r.0) ends,
        ap (λ r. r.1.arrivals) ends,
        ap (λ r. lookup a.code r.1.completed.acks) ends ∙ lookup-take_ack a.code d.completed,
      )

  -- An acknowledgement that comes before anyone waits for it is kept for the `wait_for_ack` that asks
  -- for it. A client in a valid state, connected, accepts a message and passes packets on; then
  -- `next_event` reads the acknowledgement of the message and gives its event; then more packets are
  -- passed on. After that `wait_for_ack` of the code, with no timeout or a valid one, gives the
  -- acknowledgement at once, without reading, and forgets it. The conditions: no other packet is about
  -- the code, at most 255 messages are accepted between this one and its acknowledgement, and at most
  -- 255 acknowledgements come between it and the wait.
  pub wait_for_ack-acknowledged :
      (a : Ack) (timeout_ms : ℕ) (limit : Option ℕ) (before between : List (Packet F64)) (delay : ℕ)
      (raw : List ℕ) (rest : List Arrival) (c : Client F64)
      → Valid c
      → c.connected ≡ true
      → validate_optional limit ≡ ok tt
      → c.arrivals ≡ record { delay = delay; what = Read.packet raw } ∷ rest
      → parse p raw ≡ ok (Packet.ack a)
      → All (IsOther a.code) before
      → count accepts before ≤ 255
      → All (IsOther a.code) between
      → count acknowledges between ≤ 255
      → (d : Client F64) × (next_event p (
            passed before
              (sent_as true (record { ack_code = a.code; timeout_ms = timeout_ms }) c).1)
          ≡ some (ok (into_event (Packet.ack a)), d))
        × ((wait_for_ack p a.code limit (passed between d)).0 ≡ ok a)
        × ((wait_for_ack p a.code limit (passed between d)).1.arrivals ≡ rest)
        × (lookup a.code (wait_for_ack p a.code limit (passed between d)).1.completed.acks ≡ none)
  unfolding sent_as AreWellFormed after_ack unsolicited emitted into_event update_tracking
      retain_sync_response
  wait_for_ack-acknowledged a timeout_ms limit before between delay raw rest c v h t arrives parses
        o l o' l' =
      let asked : CommandTracking = record { ack_code = a.code; timeout_ms = timeout_ms } in
      let sent = (sent_as true asked c).1 in
      let (reads, online) = passed-reads before sent in
      let (tables, waits) =
        passed-pending 0 before sent
          (
            WellFormed-remember a.code asked c.pending v.pending_table,
            WellFormed-discard a.code c.completed v.completed_table,
          )
          o (omega arith) (Held-own a.code asked c.pending v.pending_table) in
      let d = after_ack a delay rest (passed before sent) in
      let (tables', kept) = after_ack-Held a delay rest (passed before sent) tables waits in
      let (reads', online') = passed-reads between d in
      let (tables'', kept') = passed-completed 0 between d tables' o' (omega arith) kept in
      let (gives, leaves, forgets) =
        wait_for_ack-Held a limit (passed between d) (online' ∙ online ∙ h) t tables''.1 kept' in
      (
        d,
        next_event-ack a delay raw rest (passed before sent) (online ∙ h) (reads ∙ arrives) parses,
        gives,
        leaves ∙ reads',
        forgets,
      )
