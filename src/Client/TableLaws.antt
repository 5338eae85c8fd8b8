-- ===== src/Client/TableLaws.antt =====
-- A table against a queue of entries: what each operation does to the queue.
use meshquill.Client.Queue.{
  among-retain, Distinct-remove, discard_lem, keys-remove, lookup-append, remove-absent,
  same_bytes_refl, Distinct, among, keys, newest, same_bytes→≡, table_of,
}
use meshquill.Client.Tables.{remember, take_ack, ack_capacity, Table, evict, lookup, remove_key}
use meshquill.Common.{
  Option-cases, length-append, length-drop, leb, ◌∙◌, ap, none, some, subst, suc, sym, zero, ◌++◌,
  ◌≤◌, Bool-cases, List, [], arith, drop, false, inl, inr, length, refl, same_bytes, ℕ, ◌-◌, ◌∷◌,
  ◌≡◌,
}

module _ {V : Type 0} where
  keys-drop : (n : ℕ) (es : List (List ℕ × V)) → keys (drop n es) ≡ drop n (keys es)
  keys-drop zero es = refl
  keys-drop (suc n) [] = refl
  keys-drop (suc n) (e ∷ es) = keys-drop n es

  keys-append :
      (es : List (List ℕ × V)) (code : List ℕ) (v : V)
      → keys (es ++ ((code, v) ∷ [])) ≡ keys es ++ (code ∷ [])
  keys-append [] code v = refl
  keys-append (e ∷ es) code v = rw (keys-append es code v)

  length-keys : (es : List (List ℕ × V)) → length (keys es) ≡ length es
  length-keys [] = refl
  length-keys (e ∷ es) = ap suc (length-keys es)

  remove-head :
      (k : List ℕ) (v : V) (es : List (List ℕ × V))
      → among k (keys es) ≡ false
      → remove_key k ((k, v) ∷ es) ≡ es
  unfolding remove_key
  remove-head k v es fresh = rw (same_bytes_refl k) (remove-absent k es fresh)

  newest-full :
      (e : List ℕ × V) (es : List (List ℕ × V))
      → 255 ≤ length es
      → newest 255 (e ∷ es) ≡ newest 255 es
  newest-full e es h =
      ap (λ (n : ℕ). drop n (e ∷ es)) {x = suc (length es) - 255} {y = suc (length es - 255)}
        (omega arith)

  newest-room : (n : ℕ) (es : List (List ℕ × V)) → length es ≤ n → newest n es ≡ es
  newest-room n es h = ap (λ (k : ℕ). drop k es) {x = length es - n} {y = 0} (omega arith)

  -- The oldest entries leave while the table is full.
  evict_lem :
      (es : List (List ℕ × V)) → Distinct (keys es) → evict (keys es) es ≡ table_of (newest 255 es)
  unfolding evict
  evict_lem [] h = refl
  evict_lem ((k, v) ∷ es) (fresh, h) =
      elim (Bool-cases (leb ack_capacity (suc (length (keys es))))) [
        | inl e ↦ rw e (
            ap (λ rest. evict (keys es) rest) (remove-head k v es fresh)
            ∙ evict_lem es h
            ∙ ap table_of (sym (newest-full (k, v) es (ground (arith, length-keys es)))))
        | inr e ↦
            rw e
              (ap table_of (sym (newest-room 255 ((k, v) ∷ es) (ground (arith, length-keys es)))))
      ]

  Distinct-drop :
      (n : ℕ) (es : List (List ℕ × V)) → Distinct (keys es) → Distinct (keys (drop n es))
  Distinct-drop zero es h = h
  Distinct-drop (suc n) [] h = tt
  Distinct-drop (suc n) (e ∷ es) h = Distinct-drop n es h.1

  among-drop :
      (n : ℕ) (code : List ℕ) (es : List (List ℕ × V))
      → among code (keys es) ≡ false
      → among code (keys (drop n es)) ≡ false
  among-drop zero code es h = h
  among-drop (suc n) code [] h = refl
  among-drop (suc n) code ((k, v) ∷ es) h = among-drop n code es (ground arith)

  pub lookup-absent :
      (code : List ℕ) (es : List (List ℕ × V))
      → among code (keys es) ≡ false
      → lookup code es ≡ none
  unfolding lookup
  lookup-absent code [] h = refl
  lookup-absent code ((k, v) ∷ es) h = ground (arith, lookup-absent code es)

  lookup-none :
      (code : List ℕ) (es : List (List ℕ × V))
      → lookup code es ≡ none
      → among code (keys es) ≡ false
  unfolding lookup
  lookup-none code [] h = refl
  lookup-none code ((k, v) ∷ es) h = ground (arith, lookup-none code es)

  among-append :
      (k code : List ℕ) (v : V) (es : List (List ℕ × V))
      → among k (keys es) ≡ false
      → same_bytes code k ≡ false
      → among k (keys (es ++ ((code, v) ∷ []))) ≡ false
  among-append k code v [] h ne = ground arith
  among-append k code v ((j, w) ∷ es) h ne = ground (arith, among-append k code v es)

same_bytes-sym : (a b : List ℕ) → same_bytes a b ≡ false → same_bytes b a ≡ false
same_bytes-sym a b h = elim (Bool-cases (same_bytes b a)) [
  | inl e ↦ absurd (cc (same_bytes→≡ b a e, same_bytes_refl a))
  | inr e ↦ e
]

module _ {V : Type 0} where
  Distinct-append :
      (code : List ℕ) (v : V) (es : List (List ℕ × V))
      → Distinct (keys es)
      → among code (keys es) ≡ false
      → Distinct (keys (es ++ ((code, v) ∷ [])))
  Distinct-append code v [] h fresh = (refl, tt)
  Distinct-append code v ((k, w) ∷ es) (unique, h) fresh = (
    among-append k code v es unique (same_bytes-sym k code (ground arith)),
    Distinct-append code v es h (ground arith),
  )

  -- What `remember` leaves of the queue before it adds the code.
  abbrev pub room : List ℕ → List (List ℕ × V) → List (List ℕ × V)
  room code es = newest 255 (remove_key code es)

  -- The queue after `remember`: without the code's old entry and, when it is full, without the
  -- oldest one, and with the new entry last.
  abbrev pub remembered : List ℕ → V → List (List ℕ × V) → List (List ℕ × V)
  remembered code v es = room code es ++ ((code, v) ∷ [])

  pub among-room :
      (code : List ℕ) (es : List (List ℕ × V)) → among code (keys (room code es)) ≡ false
  among-room code es = among-drop (length (remove_key code es) - 255) code (remove_key code es) (
      subst (λ ks. among code ks ≡ false) (sym (keys-remove code es)) (among-retain code (keys es)))

  length-room : (code : List ℕ) (es : List (List ℕ × V)) → length (room code es) ≤ 255
  length-room code es =
      omega (arith, length-drop (length (remove_key code es) - 255) (remove_key code es))

  pub Distinct-remembered :
      (code : List ℕ) (v : V) (es : List (List ℕ × V))
      → Distinct (keys es)
      → Distinct (keys (remembered code v es))
  Distinct-remembered code v es h =
      Distinct-append code v (room code es)
        (Distinct-drop (length (remove_key code es) - 255) (remove_key code es)
          (Distinct-remove code es h))
        (among-room code es)

  pub length-remembered :
      (code : List ℕ) (v : V) (es : List (List ℕ × V)) → length (remembered code v es) ≤ 256
  length-remembered code v es =
      omega (arith, length-append (room code es) ((code, v) ∷ []), length-room code es)

  pub remember_lem :
      (code : List ℕ) (v : V) (es : List (List ℕ × V))
      → Distinct (keys es)
      → remember code v (table_of es) ≡ table_of (remembered code v es)
  unfolding remember
  remember_lem code v es h =
      let add : Table V → Table V =
        λ t. record { acks = t.acks ++ ((code, v) ∷ []); order = t.order ++ (code ∷ []) } in
      ap (λ t. add (evict t.order t.acks)) (discard_lem code es)
      ∙ ap add (evict_lem (remove_key code es) (Distinct-remove code es h))
      ∙ ap (λ ks. record { acks = remembered code v es; order = ks })
          (sym (keys-append (room code es) code v))

  pub lookup-remembered :
      (code : List ℕ) (v : V) (es : List (List ℕ × V)) → lookup code (remembered code v es) ≡ some v
  lookup-remembered code v es =
      lookup-append code (room code es) v (lookup-absent code (room code es) (among-room code es))

  pub take_ack_lem :
      (code : List ℕ) (es : List (List ℕ × V))
      → take_ack code (table_of es) ≡ (lookup code es, table_of (remove_key code es))
  unfolding take_ack lookup
  take_ack_lem code es = elim (Option-cases (lookup code es)) [
    | inl e ↦ rw e (
        ap (λ ks. (none, record { acks = remove_key code es; order = ks }))
          (ap keys (sym (remove-absent code es (lookup-none code es e)))))
    | inr (v, e) ↦ rw e (
        ap (λ ks. (some v, record { acks = remove_key code es; order = ks }))
          (sym (keys-remove code es)))
  ]
