-- ===== src/Client/Queue.antt =====
-- Queues of entries, the oldest first: what is left after a code was removed.
use meshquill.Client.Tables.{Table, discard, lookup, remove_key, retain_ne}
use meshquill.Common.{
  none, some, subst, sym, ◌++◌, ◌≤◌, Bool, Bool-cases, List, [], arith, drop, false, inl, inr,
  length, refl, same_bytes, true, ℕ, ◌-◌, ◌||◌, ◌∷◌, ◌≡◌,
}

pub same_bytes_refl : (code : List ℕ) → same_bytes code code ≡ true
unfolding same_bytes
same_bytes_refl [] = refl
same_bytes_refl (x ∷ xs) = ground (arith, same_bytes_refl xs)

pub same_bytes→≡ : (a b : List ℕ) → same_bytes a b ≡ true → a ≡ b
unfolding same_bytes
same_bytes→≡ [] [] h = refl
same_bytes→≡ [] (y ∷ ys) h = cc
same_bytes→≡ (x ∷ xs) [] h = cc
same_bytes→≡ (x ∷ xs) (y ∷ ys) h = grind (arith, same_bytes→≡ xs ys)

-- The codes of a queue, and whether a code is among some.
abbrev pub keys : {V : Type 0} → List (List ℕ × V) → List (List ℕ)
keys [] = []
keys ((k, v) ∷ entries) = k ∷ keys entries

abbrev pub among : List ℕ → List (List ℕ) → Bool
among code [] = false
among code (k ∷ ks) = same_bytes k code || among code ks

abbrev pub Distinct : List (List ℕ) → Type 0
Distinct [] = Unit {0}
Distinct (k ∷ ks) = (among k ks ≡ false) × Distinct ks

-- The table of a queue.
abbrev pub table_of : {V : Type 0} → List (List ℕ × V) → Table V
table_of entries = record { acks = entries; order = keys entries }

-- The last `n` entries.
abbrev pub newest : {V : Type 0} → ℕ → List (List ℕ × V) → List (List ℕ × V)
newest n entries = drop (length entries - n) entries

-- What is left after a code was removed.
module _ (code : List ℕ) where
  pub among-retain : (ks : List (List ℕ)) → among code (retain_ne code ks) ≡ false
  unfolding retain_ne
  among-retain [] = refl
  among-retain (j ∷ ks) = ground (arith, among-retain ks)

  pub among-retain_other :
      (k : List ℕ) (ks : List (List ℕ)) → among k ks ≡ false → among k (retain_ne code ks) ≡ false
  unfolding retain_ne
  among-retain_other k [] h = refl
  among-retain_other k (j ∷ ks) h = ground (arith, among-retain_other k ks)

  pub Distinct-retain : (ks : List (List ℕ)) → Distinct ks → Distinct (retain_ne code ks)
  unfolding retain_ne
  Distinct-retain [] h = tt
  Distinct-retain (j ∷ ks) (fresh, h) = elim (Bool-cases (same_bytes j code)) [
    | inl e ↦ rw e (Distinct-retain ks h)
    | inr e ↦ rw e (among-retain_other j ks fresh, Distinct-retain ks h)
  ]

  module _ {V : Type 0} where
    pub keys-remove :
        (es : List (List ℕ × V)) → keys (remove_key code es) ≡ retain_ne code (keys es)
    unfolding remove_key retain_ne
    keys-remove [] = refl
    keys-remove ((k, v) ∷ es) = ground (arith, keys-remove es)

    pub length-remove : (es : List (List ℕ × V)) → length (remove_key code es) ≤ length es
    unfolding remove_key
    length-remove [] = omega arith
    length-remove ((k, v) ∷ es) = ground (arith, length-remove es)

    pub remove-absent :
        (es : List (List ℕ × V)) → among code (keys es) ≡ false → remove_key code es ≡ es
    unfolding remove_key
    remove-absent [] h = refl
    remove-absent ((k, v) ∷ es) h = ground (arith, remove-absent es)

    pub lookup-remove : (es : List (List ℕ × V)) → lookup code (remove_key code es) ≡ none
    unfolding remove_key lookup
    lookup-remove [] = refl
    lookup-remove ((k, v) ∷ es) = ground (arith, lookup-remove es)

    pub discard_lem :
        (es : List (List ℕ × V)) → discard code (table_of es) ≡ table_of (remove_key code es)
    unfolding discard
    discard_lem es = rw (sym (keys-remove es)) refl

    pub Distinct-remove :
        (es : List (List ℕ × V)) → Distinct (keys es) → Distinct (keys (remove_key code es))
    Distinct-remove es h = subst Distinct (sym (keys-remove es)) (Distinct-retain (keys es) h)

    pub lookup-append :
        (es : List (List ℕ × V)) (v : V)
        → lookup code es ≡ none
        → lookup code (es ++ ((code, v) ∷ [])) ≡ some v
    unfolding lookup
    lookup-append [] v h = rw (same_bytes_refl code) refl
    lookup-append ((k, w) ∷ es) v h = ground (arith, lookup-append es v)
