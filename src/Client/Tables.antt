-- ===== src/Client/Tables.antt =====
-- The two bounded tables of acknowledgements: a map from codes and the order in which they came,
-- of which the oldest is dropped. A map is an association list.
use meshquill.Common.{
  List, Option, [], if◌then◌else◌, leb, length, none, same_bytes, some, ℕ, ◌++◌, ◌∷◌,
}

-- `HashMap::remove`, `HashMap::get` and `VecDeque::retain(|code| *code != wanted)`.
module _ {V : Type 0} where
  unfoldable pub remove_key : List ℕ → List (List ℕ × V) → List (List ℕ × V)
  remove_key code [] = []
  remove_key code ((k, v) ∷ entries) =
      let rest = remove_key code entries in if same_bytes k code then rest else (k, v) ∷ rest

  unfoldable pub lookup : List ℕ → List (List ℕ × V) → Option V
  lookup code [] = none
  lookup code ((k, v) ∷ entries) = if same_bytes k code then some v else lookup code entries

unfoldable pub retain_ne : List ℕ → List (List ℕ) → List (List ℕ)
retain_ne code [] = []
retain_ne code (k ∷ order) =
    let rest = retain_ne code order in if same_bytes k code then rest else k ∷ rest

-- `pending_acks` with `pending_ack_order`, `completed_acks` with `completed_ack_order`.
pub record Table (V : Type 0) : Type 0 where
  pub acks : List (List ℕ × V)
  pub order : List (List ℕ)

abbrev pub ack_capacity : ℕ
ack_capacity = 256

module _ {V : Type 0} where
  abbrev pub empty_table : Table V
  empty_table = record { acks = []; order = [] }

  -- `discard_pending_ack`, `discard_completed_ack`
  unfoldable pub discard : List ℕ → Table V → Table V
  discard code table = record {
    acks = remove_key code table.acks;
    order = retain_ne code table.order;
  }

  -- `take_pending_ack`, `take_completed_ack`
  unfoldable pub take_ack : List ℕ → Table V → Option V × Table V
  take_ack code table = elim (lookup code table.acks) [
    | none ↦ (none, record table { acks = remove_key code table.acks })
    | some v ↦
        (some v, record { acks = remove_key code table.acks; order = retain_ne code table.order })
  ]

  -- The loop that drops the oldest while the table is full.
  unfoldable pub evict : List (List ℕ) → List (List ℕ × V) → Table V
  evict [] acks = record { acks = acks; order = [] }
  evict (oldest ∷ order) acks =
      let rest = evict order (remove_key oldest acks) in
      if leb ack_capacity (length (oldest ∷ order))
      then rest
      else record { acks = acks; order = oldest ∷ order }

  -- `remember_pending_ack`, `remember_completed_ack`
  unfoldable pub remember : List ℕ → V → Table V → Table V
  unfolding discard evict
  remember code v table =
      let kept = discard code table in
      let room = evict kept.order kept.acks in
      record { acks = room.acks ++ ((code, v) ∷ []); order = room.order ++ (code ∷ []) }
