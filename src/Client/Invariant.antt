-- ===== src/Client/Invariant.antt =====
-- The invariant of a client, and the calls that keep it.
use meshquill.Client.TableLaws.{
  length-remembered, Distinct-remembered, remembered, remember_lem, take_ack_lem,
}
use meshquill.Domain.{Ack, CommandTracking}
use meshquill.Error.{CoreError}
use meshquill.Client.Queue.{length-remove, Distinct-remove, discard_lem, keys, table_of, Distinct}
use meshquill.Client.Tables.{
  ack_capacity, remove_key, discard, remember, take_ack, Table, empty_table,
}
use meshquill.Common.{
  All, Bool, List, Option, Outcome, ap, arith, err, false, length, none, ok, panic, refl, subst,
  sym, true, ℕ, ◌<◌, ◌^◌, ◌∙◌, ◌≡◌, ◌≤◌,
}
use meshquill.Client.State.{
  ReadySync, SyncState, proceed, ensure_connected, ◌>>=◌, pure, raise, lift, Client, Call, modify,
}

-- A table that is a queue of at most 256 entries with distinct codes.
pub record WellFormed {V : Type 0} (t : Table V) : Type 0 where
  pub shape : t ≡ table_of t.acks
  pub distinct : Distinct (keys t.acks)
  pub bound : length t.acks ≤ ack_capacity

-- What a disconnected client remembers of the session: nothing.
abbrev pub IsCleared : Table CommandTracking → Table Ack → SyncState → Option ReadySync → Type 0
IsCleared pending completed state deferred =
    (pending ≡ empty_table)
    × (completed ≡ empty_table)
    × (state ≡ SyncState.idle)
    × (deferred ≡ none)

-- The size of a companion packet.
abbrev pub Fits : List ℕ → Type 0
Fits payload = (1 ≤ length payload) × (length payload ≤ 176)

-- The invariant, of the fields that it is about.
pub record Sound (connected : Bool) (pending : Table CommandTracking) (completed : Table Ack)
    (id : ℕ) (state : SyncState) (deferred : Option ReadySync) (written : List (List ℕ))
    : Type 0 where
  pub pending_table : WellFormed pending
  pub completed_table : WellFormed completed
  pub id_range : (1 ≤ id) × (id < 2 ^ 64)
  pub sizes : All Fits written
  pub cleared : connected ≡ false → IsCleared pending completed state deferred

abbrev pub Valid : {F64 : Type 0} → Client F64 → Type 0
Valid c =
    Sound c.connected c.pending c.completed c.next_message_observation_id c.sync_state
      c.deferred_sync c.written

-- The tables.
module _ {V : Type 0} where
  pub WellFormed-empty : WellFormed {V = V} empty_table
  WellFormed-empty = record { shape = refl; distinct = tt; bound = omega arith }

  WellFormed-table :
      (es : List (List ℕ × V)) → Distinct (keys es) → length es ≤ 256 → WellFormed (table_of es)
  WellFormed-table es h b = record { shape = refl; distinct = h; bound = b }

  pub WellFormed-remember :
      (code : List ℕ) (v : V) (t : Table V) → WellFormed t → WellFormed (remember code v t)
  WellFormed-remember code v t w =
      subst WellFormed
        (sym (ap (λ q. remember code v q) w.shape ∙ remember_lem code v t.acks w.distinct))
        (WellFormed-table (remembered code v t.acks) (Distinct-remembered code v t.acks w.distinct)
          (length-remembered code v t.acks))

  WellFormed-remove :
      (code : List ℕ) (t : Table V) → WellFormed t → WellFormed (table_of (remove_key code t.acks))
  WellFormed-remove code t w =
      let bound = w.bound in
      WellFormed-table (remove_key code t.acks) (Distinct-remove code t.acks w.distinct)
        (omega (arith, length-remove code t.acks))

  pub WellFormed-discard :
      (code : List ℕ) (t : Table V) → WellFormed t → WellFormed (discard code t)
  WellFormed-discard code t w =
      subst WellFormed (sym (ap (λ q. discard code q) w.shape ∙ discard_lem code t.acks))
        (WellFormed-remove code t w)

  pub WellFormed-take_ack :
      (code : List ℕ) (t : Table V) → WellFormed t → WellFormed (take_ack code t).1
  WellFormed-take_ack code t w =
      subst WellFormed
        (sym (ap (λ q. (take_ack code q).1) w.shape ∙ ap (λ r. r.1) (take_ack_lem code t.acks)))
        (WellFormed-remove code t w)

module _ {F64 : Type 0} where
  -- A change that a connected client may make.
  pub record Stable (f : Client F64 → Client F64) : Type 0 where
    pub valid : (c : Client F64) → Valid c → c.connected ≡ true → Valid (f c)
    pub connected : (c : Client F64) → c.connected ≡ true → (f c).connected ≡ true

  -- A call that keeps the invariant, and leaves the client connected when it returns a value.
  pub record Runs {A : Type 0} (m : Call F64 A) : Type 0 where
    pub valid : (c : Client F64) → Valid c → Valid (m c).1
    pub connected : (c : Client F64) (a : A) → (m c).0 ≡ ok a → (m c).1.connected ≡ true

  -- The same when it starts connected.
  pub record Keeps {A : Type 0} (m : Call F64 A) : Type 0 where
    pub valid : (c : Client F64) → Valid c → c.connected ≡ true → Valid (m c).1
    pub connected :
        (c : Client F64) (a : A) → c.connected ≡ true → (m c).0 ≡ ok a → (m c).1.connected ≡ true

  pub Keeps-pure : {A : Type 0} (a : A) → Keeps {A = A} (pure a)
  Keeps-pure a = record { valid = λ c v h. v; connected = λ c a h e. h }

  pub Keeps-lift : {A : Type 0} (o : Outcome CoreError A) → Keeps {A = A} (lift o)
  Keeps-lift o = record { valid = λ c v h. v; connected = λ c a h e. h }

  pub Keeps-raise : {A : Type 0} (e : CoreError) → Keeps {A = A} (raise e)
  Keeps-raise e = record { valid = λ c v h. v; connected = λ c a h e. h }

  pub Keeps-modify : (f : Client F64 → Client F64) → Stable f → Keeps (modify f)
  Keeps-modify f s = record { valid = s.valid; connected = λ c a h e. s.connected c h }

  pub Keeps-Runs : {A : Type 0} (m : Call F64 A) → Runs m → Keeps m
  Keeps-Runs m r = record { valid = λ c v h. r.valid c v; connected = λ c a h e. r.connected c a e }

  module _ {A B : Type 0} (f : A → Call F64 B) (k : (a : A) → Keeps (f a)) where
    proceed-Valid :
        (o : Outcome CoreError A) (c : Client F64)
        → Valid c
        → ((a : A) → o ≡ ok a → c.connected ≡ true)
        → Valid (proceed f o c).1
    proceed-Valid (ok a) c v h = (k a).valid c v (h a refl)
    proceed-Valid (err e) c v h = v
    proceed-Valid panic c v h = v

    proceed_connected :
        (o : Outcome CoreError A) (c : Client F64)
        → ((a : A) → o ≡ ok a → c.connected ≡ true)
        → (b : B) → (proceed f o c).0 ≡ ok b
        → (proceed f o c).1.connected ≡ true
    proceed_connected (ok a) c h b e = (k a).connected c b (h a refl) e
    proceed_connected (err x) c h b e = cc
    proceed_connected panic c h b e = cc

    pub Keeps-bind : (m : Call F64 A) → Keeps m → Keeps (m >>= f)
    Keeps-bind m km = record {
      valid = λ c v h. proceed-Valid (m c).0 (m c).1 (km.valid c v h) (λ a e. km.connected c a h e);
      connected = λ c b h e. proceed_connected (m c).0 (m c).1 (λ a e. km.connected c a h e) b e;
    }

    pub Runs-bind : (m : Call F64 A) → Runs m → Runs (m >>= f)
    Runs-bind m rm = record {
      valid = λ c v. proceed-Valid (m c).0 (m c).1 (rm.valid c v) (λ a e. rm.connected c a e);
      connected = λ c b e. proceed_connected (m c).0 (m c).1 (λ a e. rm.connected c a e) b e;
    }

  -- What follows a check of the arguments.
  pub Runs-lift :
      {A B : Type 0} (o : Outcome CoreError A) (f : A → Call F64 B)
      → ((a : A) → Runs (f a))
      → Runs (lift o >>= f)
  Runs-lift (ok a) f r = record { valid = (r a).valid; connected = (r a).connected }
  Runs-lift (err x) f r = record { valid = λ c v. v; connected = λ c b e. cc }
  Runs-lift panic f r = record { valid = λ c v. v; connected = λ c b e. cc }

  pub Runs-ensure_connected : Runs ensure_connected
  unfolding ensure_connected
  Runs-ensure_connected = record { valid = λ c v. v; connected = λ c a e. grind arith }
