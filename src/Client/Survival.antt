-- ===== src/Client/Survival.antt =====
-- How long an entry of an acknowledgement table is kept while packets come: until 256 others were
-- added behind it.
use meshquill.Domain.{Ack, CommandTracking}
use meshquill.Client.Packets.{completed_by, tracked}
use meshquill.Protocol.Packet.{Packet}
use meshquill.Client.Tables.{discard, Table, lookup, remember, remove_key, take_ack}
use meshquill.Client.Queue.{length-remove, same_bytes_refl, same_bytes→≡, table_of}
use meshquill.Client.TableLaws.{
  among-room, lookup-absent, room, remember_lem, remembered, take_ack_lem,
}
use meshquill.Client.Invariant.{WellFormed}
use meshquill.Common.{
  Option, dec_lt, Bool-cases, List, [], ap, arith, drop, false, inl, inr, length, length-append,
  none, refl, same_bytes, some, subst, suc, sym, true, zero, ℕ, ◌++◌, ◌+◌, ◌-◌, ◌<◌, ◌∙◌, ◌∷◌, ◌≡◌,
  ◌≤◌,
}

-- The first entry of the code has the value `v`, and at most `n` entries are behind it.
pub data Held {V : Type 0} (code : List ℕ) (v : V) (n : ℕ) : List (List ℕ × V) → Type 0 where
  here :
      (k : List ℕ) (es : List (List ℕ × V))
      → same_bytes k code ≡ true
      → length es ≤ n
      → Held code v n ((k, v) ∷ es)
  there :
      (k : List ℕ) (w : V) (es : List (List ℕ × V))
      → same_bytes k code ≡ false
      → Held code v n es
      → Held code v n ((k, w) ∷ es)

module _ {V : Type 0} {code : List ℕ} {v : V} where
  pub lookup-Held : {n : ℕ} {es : List (List ℕ × V)} → Held code v n es → lookup code es ≡ some v
  unfolding lookup
  lookup-Held (here k es same h) = rw same refl
  lookup-Held (there k w es other h) = rw other (lookup-Held h)

  pub Held-more : {n m : ℕ} {es : List (List ℕ × V)} → n ≤ m → Held code v n es → Held code v m es
  Held-more l (here k es same h) = here k es same (omega arith)
  Held-more l (there k w es other h) = there k w es other (Held-more l h)

  pub Held-remove :
      {n : ℕ} (other : List ℕ) {es : List (List ℕ × V)}
      → same_bytes code other ≡ false
      → Held code v n es
      → Held code v n (remove_key other es)
  unfolding remove_key
  Held-remove other differ (here k es same h) =
      let kept : same_bytes k other ≡ false = cc (same_bytes→≡ k code same) in
      rw kept (here k (remove_key other es) same (omega (arith, length-remove other es)))
  Held-remove other differ (there k w es apart h) = elim (Bool-cases (same_bytes k other)) [
    | inl e ↦ rw e (Held-remove other differ h)
    | inr e ↦ rw e (there k w (remove_key other es) apart (Held-remove other differ h))
  ]

  Held-append :
      {n : ℕ} (entry : List ℕ × V) {es : List (List ℕ × V)}
      → Held code v n es
      → Held code v (suc n) (es ++ (entry ∷ []))
  Held-append entry (here k es same h) =
      here k (es ++ (entry ∷ [])) same (omega (arith, length-append es (entry ∷ [])))
  Held-append entry (there k w es other h) =
      there k w (es ++ (entry ∷ [])) other (Held-append entry h)

  -- The entry outlasts those in front of it.
  Held-drop :
      {n : ℕ} (m : ℕ) {es : List (List ℕ × V)}
      → m + n < length es
      → Held code v n es
      → Held code v n (drop m es)
  Held-drop zero l h = h
  Held-drop (suc m) l (here k es same h) = absurd (omega arith)
  Held-drop (suc m) l (there k w es other h) = Held-drop m (omega arith) h

  Held-newest :
      {n : ℕ} (es : List (List ℕ × V))
      → n < 255
      → Held code v n es
      → Held code v n (drop (length es - 255) es)
  Held-newest {n = n} es l h = elim (dec_lt 255 (length es)) [
    | yes full ↦ Held-drop (length es - 255) (omega arith) h
    | no room ↦
        let all : 0 ≡ length es - 255 = omega arith in subst (λ m. Held code v n (drop m es)) all h
  ]

  Held-remembered :
      {n : ℕ} (other : List ℕ) (w : V) (es : List (List ℕ × V))
      → same_bytes code other ≡ false
      → n < 255
      → Held code v n es
      → Held code v (suc n) (remembered other w es)
  Held-remembered other w es differ l h =
      Held-append (other, w) (Held-newest (remove_key other es) l (Held-remove other differ h))

  pub Held-remember :
      {n : ℕ} (other : List ℕ) (w : V) (t : Table V)
      → WellFormed t
      → same_bytes code other ≡ false
      → n < 255
      → Held code v n t.acks
      → Held code v (suc n) (remember other w t).acks
  Held-remember {n = n} other w t f differ l h =
      let result : remember other w t ≡ table_of (remembered other w t.acks) =
        ap (remember other w) f.shape ∙ remember_lem other w t.acks f.distinct in
      subst (λ q. Held code v (suc n) q.acks) (sym result)
        (Held-remembered other w t.acks differ l h)

  pub Held-take_ack :
      {n : ℕ} (other : List ℕ) (t : Table V)
      → WellFormed t
      → same_bytes code other ≡ false
      → Held code v n t.acks
      → Held code v n (take_ack other t).1.acks
  Held-take_ack {n = n} other t f differ h =
      let result : take_ack other t ≡ (lookup other t.acks, table_of (remove_key other t.acks)) =
        ap (take_ack other) f.shape ∙ take_ack_lem other t.acks in
      subst (λ q. Held code v n q.1.acks) (sym result) (Held-remove other differ h)

  -- A code that was just remembered has nothing behind it.
  Held-last :
      (es : List (List ℕ × V)) → lookup code es ≡ none → Held code v 0 (es ++ ((code, v) ∷ []))
  unfolding lookup
  Held-last [] h = here code [] (same_bytes_refl code) (omega arith)
  Held-last ((k, w) ∷ es) h = elim (Bool-cases (same_bytes k code)) [
    | inl e ↦ absurd (ground (arith, e))
    | inr e ↦ there k w (es ++ ((code, v) ∷ [])) e (Held-last es (ground (arith, e)))
  ]

pub Held-own :
    {V : Type 0} (code : List ℕ) (v : V) (t : Table V)
    → WellFormed t
    → Held code v 0 (remember code v t).acks
Held-own code v t f =
    let result : remember code v t ≡ table_of (remembered code v t.acks) =
      ap (remember code v) f.shape ∙ remember_lem code v t.acks f.distinct in
    subst (λ q. Held code v 0 q.acks) (sym result)
      (Held-last (room code t.acks)
        (lookup-absent code (room code t.acks) (among-room code t.acks)))

-- Packets that are about no message with the code.
abbrev pub IsOther : {F64 : Type 0} → List ℕ → Packet F64 → Type 0
IsOther code (Packet.msg_sent d other t) = same_bytes code other ≡ false
IsOther code (Packet.ack a) = same_bytes code a.code ≡ false
IsOther code packet = Unit {0}

-- How many packets of a list accept a message, and how many acknowledge one.
abbrev pub accepts : {F64 : Type 0} → Packet F64 → ℕ
accepts (Packet.msg_sent d other t) = 1
accepts packet = 0

abbrev pub acknowledges : {F64 : Type 0} → Packet F64 → ℕ
acknowledges (Packet.ack a) = 1
acknowledges packet = 0

abbrev pub count : {F64 : Type 0} → (Packet F64 → ℕ) → List (Packet F64) → ℕ
count weight [] = 0
count weight (packet ∷ packets) = weight packet + count weight packets

Held-completed_by :
    {code : List ℕ} {n : ℕ} {v : Ack} (a : Ack) (found : Option CommandTracking)
    (completed : Table Ack)
    → WellFormed completed
    → same_bytes code a.code ≡ false
    → n < 255
    → Held code v n completed.acks
    → Held code v (suc n) (completed_by a found completed).acks
unfolding completed_by
Held-completed_by a none completed f differ l h = Held-more (omega arith) h
Held-completed_by a (some tracking) completed f differ l h =
    Held-remember a.code a completed f differ l h

module _ {F64 : Type 0} {code : List ℕ} {n : ℕ} where
  pub Held-pending :
      {v : CommandTracking} (packet : Packet F64) (pending : Table CommandTracking)
      (completed : Table Ack)
      → WellFormed pending
      → IsOther code packet
      → n + accepts packet ≤ 255
      → Held code v n pending.acks
      → Held code v (n + accepts packet) (tracked packet pending completed).0.acks
  unfolding tracked
  Held-pending (Packet.msg_sent d other t) pending completed f differ l h =
      Held-more (omega arith) (Held-remember other _ pending f differ (omega arith) h)
  Held-pending (Packet.ack a) pending completed f differ l h =
      Held-more (omega arith) (Held-take_ack a.code pending f differ h)
  Held-pending packet pending completed f differ l h = Held-more (omega arith) h

  pub Held-completed :
      {v : Ack} (packet : Packet F64) (pending : Table CommandTracking) (completed : Table Ack)
      → WellFormed completed
      → IsOther code packet
      → n + acknowledges packet ≤ 255
      → Held code v n completed.acks
      → Held code v (n + acknowledges packet) (tracked packet pending completed).1.acks
  unfolding tracked discard
  Held-completed (Packet.msg_sent d other t) pending completed f differ l h =
      Held-more (omega arith) (Held-remove other differ h)
  Held-completed (Packet.ack a) pending completed f differ l h =
      Held-more (omega arith)
        (Held-completed_by a (take_ack a.code pending).0 completed f differ (omega arith) h)
  Held-completed packet pending completed f differ l h = Held-more (omega arith) h
