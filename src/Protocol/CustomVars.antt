-- ===== src/Protocol/CustomVars.antt =====
-- crates/meshquill-core/src/protocol.rs, `parse_custom_vars`: the entries that it returns are the
-- text, and no two have one key.
use meshquill.Common.Bytes.{slice_from-eq-ok}
use meshquill.Common.Utf8.{from_utf8, from_utf8-eq_some}
use meshquill.Protocol.Parse.Pieces.{decode_text}
use meshquill.Protocol.Packet.{Packet}
use meshquill.Domain.{CustomVariables}
use meshquill.Protocol.Parse.Lists.{
  custom_entries, parse_custom_vars, add_pairs, checked_entry, has_key,
}
use meshquill.Common.{
  String, length, ltb, reject_if, ◌-◌, append-nil, drop, slice_from, subst, ==_iff, >>=-eq-ok,
  All-append, ap, append_assoc, false, ok, same_bytes, sym, true, ◌∙◌, All, Bool-cases, List,
  Option-cases, [], arith, inl, inr, map, refl, some, split_on, split_once, ℕ, ◌++◌, ◌==◌, ◌∷◌, ◌≡◌,
  ◌≢◌,
}
use meshquill.Common.Utf8.{Text}
use meshquill.Domain.{CustomVariable}

abbrev pair_text : CustomVariable → Text
pair_text entry = entry.key ++ (b':' ∷ entry.value)

abbrev join : List Text → Text
join [] = []
join (t ∷ []) = t
join (t ∷ t' ∷ ts) = t ++ (b',' ∷ join (t' ∷ ts))

-- The text of a list of entries.
abbrev pub print : List CustomVariable → Text
print entries = join (map pair_text entries)

abbrev pub DistinctKeys : List CustomVariable → Type 0
DistinctKeys [] = Unit
DistinctKeys (entry ∷ entries) = All (λ other. other.key ≢ entry.key) entries × DistinctKeys entries

split_on-cons : (sep : ℕ) (t : Text) → (p : Text) × (ps : List Text) × (split_on sep t ≡ p ∷ ps)
unfolding split_on
split_on-cons sep [] = ([], [], refl)
split_on-cons sep (x ∷ xs) =
    let (p, ps, e) = split_on-cons sep xs in
    elim (Bool-cases (x == sep)) [
      | inl y ↦ ([], split_on sep xs, rw y refl)
      | inr n ↦ (x ∷ p, ps, rw (n, e) refl)
    ]

join-extend : (x : ℕ) (p : Text) (ps : List Text) → join ((x ∷ p) ∷ ps) ≡ x ∷ join (p ∷ ps)
join-extend x p [] = refl
join-extend x p (q ∷ ps) = refl

join-split_on : (t : Text) → join (split_on b',' t) ≡ t
unfolding split_on
join-split_on [] = refl
join-split_on (x ∷ xs) =
    let (p, ps, e) = split_on-cons b',' xs in
    let rest : join (p ∷ ps) ≡ xs = ap join (sym e) ∙ join-split_on xs in
    elim (Bool-cases (x == b',')) [
      | inl y ↦
          rw (y, e) (ap (λ t. b',' ∷ t) rest ∙ ap (λ (c : ℕ). c ∷ xs) (sym ((==_iff x b',').0 y)))
      | inr n ↦ rw (n, e) (join-extend x p ps ∙ ap (λ t. x ∷ t) rest)
    ]

split_once-eq_some : (sep : ℕ) (t a b : Text) → split_once sep t ≡ some (a, b) → t ≡ a ++ (sep ∷ b)
unfolding split_once
split_once-eq_some sep [] a b h = cc
split_once-eq_some sep (x ∷ xs) a b h = elim (Option-cases (split_once sep xs)) [
  | inl e ↦ ground (arith, e)
  | inr ((c, d), e) ↦ ground (arith, e, split_once-eq_some sep xs c d e)
]

same_bytes_refl : (t : Text) → same_bytes t t ≡ true
unfolding same_bytes
same_bytes_refl [] = refl
same_bytes_refl (x ∷ t) = ground (arith, same_bytes_refl t)

has_key-fresh :
    (key : Text) (entries : List CustomVariable)
    → has_key key entries ≡ false
    → All (λ other. other.key ≢ key) entries
unfolding has_key
has_key-fresh key [] h = tt
has_key-fresh key (entry ∷ entries) h = (
  λ e. cc (ap (λ t. same_bytes t key) e, same_bytes_refl key, left),
  has_key-fresh key entries (ground arith),
)
  where
    left : same_bytes entry.key key ≡ false
    left = ground arith

DistinctKeys-append :
    (entries : List CustomVariable) (entry : CustomVariable)
    → DistinctKeys entries
    → All (λ other. other.key ≢ entry.key) entries
    → DistinctKeys (entries ++ (entry ∷ []))
DistinctKeys-append [] entry d f = (tt, tt)
DistinctKeys-append (x ∷ entries) entry d f = (
  All-append (λ other. other.key ≢ x.key) entries (entry ∷ []) d.0 (λ e. f.0 (sym e), tt),
  DistinctKeys-append entries entry d.1 f.1,
)

map-append :
    (xs ys : List CustomVariable) → map pair_text (xs ++ ys) ≡ map pair_text xs ++ map pair_text ys
map-append [] ys = refl
map-append (x ∷ xs) ys = ap (λ t. pair_text x ∷ t) (map-append xs ys)

-- An entry that is accepted is its pair, and its key is new.
checked_entry-eq-ok :
    (entries : List CustomVariable) (pair : Text) (entry : CustomVariable)
    → checked_entry entries (split_once b':' pair) ≡ ok entry
    → (pair_text entry ≡ pair) × (has_key entry.key entries ≡ false)
unfolding checked_entry
checked_entry-eq-ok entries pair entry h = elim (Option-cases (split_once b':' pair)) [
  | inl e ↦ ground (arith, e)
  | inr ((key, value), e) ↦ ground (arith, e, split_once-eq_some b':' pair key value e)
]

add_pairs-eq-ok :
    (pairs : List Text) (entries result : List CustomVariable)
    → DistinctKeys entries
    → add_pairs pairs entries ≡ ok result
    → (map pair_text result ≡ map pair_text entries ++ pairs) × DistinctKeys result
unfolding add_pairs
add_pairs-eq-ok [] entries result d h =
    let e : entries ≡ result = cc in
    (ap (map pair_text) (sym e) ∙ sym (append-nil (map pair_text entries)), subst DistinctKeys e d)
add_pairs-eq-ok (pair ∷ pairs) entries result d h =
    let (entry, e, rest) = >>=-eq-ok (checked_entry entries (split_once b':' pair)) _ h in
    let (same, new) = checked_entry-eq-ok entries pair entry e in
    let (m, d') =
      add_pairs-eq-ok pairs (entries ++ (entry ∷ [])) result
        (DistinctKeys-append entries entry d (has_key-fresh entry.key entries new)) rest in
    (
      m
          ∙ ap (λ l. l ++ pairs) (map-append entries (entry ∷ []))
          ∙ append_assoc (map pair_text entries) _ pairs
          ∙ ap (λ q. map pair_text entries ++ (q ∷ pairs)) same,
      d',
    )

custom_entries-eq-ok :
    (text : Text) (entries : List CustomVariable)
    → custom_entries text ≡ ok entries
    → (print entries ≡ text) × DistinctKeys entries
unfolding custom_entries
custom_entries-eq-ok [] entries h =
    let e : [] ≡ entries = cc in subst (λ l. (print l ≡ []) × DistinctKeys l) e (refl, tt)
custom_entries-eq-ok (x ∷ xs) entries h =
    let pairs : add_pairs (split_on b',' (x ∷ xs)) [] ≡ ok entries = ground arith in
    let (m, d) = add_pairs-eq-ok (split_on b',' (x ∷ xs)) [] entries tt pairs in
    (ap join m ∙ join-split_on (x ∷ xs), d)

decode_text-eq-ok :
    (bytes : List ℕ) (context : String) (text : Text)
    → decode_text bytes context ≡ ok text
    → text ≡ bytes
unfolding decode_text
decode_text-eq-ok bytes context text h = elim (Option-cases (from_utf8 bytes)) [
  | inl e ↦ ground (arith, e)
  | inr (t, e) ↦ ground (arith, e, from_utf8-eq_some bytes t e)
]

-- The custom variables that the parser returns carry the packet's payload, which is the text of the
-- entries in order, each as `key:value` and separated by commas, and no two entries have one key.
pub parse_custom_vars-entries :
    {F64 : Type 0} (raw : List ℕ) (vars : CustomVariables)
    → parse_custom_vars {F64 = F64} raw ≡ ok (Packet.custom_variables vars)
    → (vars.raw ≡ drop 1 raw) × (print vars.entries ≡ drop 1 raw) × DistinctKeys vars.entries
unfolding parse_custom_vars
parse_custom_vars-entries raw vars h =
    let (u, e, h1) = >>=-eq-ok (reject_if (ltb 140 (length raw - 1)) _) _ h in
    let (payload, e1, h2) = >>=-eq-ok (slice_from raw 1) _ h1 in
    let (text, e2, h3) = >>=-eq-ok (decode_text payload "CustomVariables") _ h2 in
    let (entries, e3, h4) = >>=-eq-ok (custom_entries text) _ h3 in
    let (printed, distinct) = custom_entries-eq-ok text entries e3 in
    let sliced : payload ≡ drop 1 raw = slice_from-eq-ok raw 1 e1 in
    let decoded : text ≡ payload = decode_text-eq-ok payload "CustomVariables" text e2 in
    let e4 : record { raw = payload; entries = entries } ≡ vars = cc (h4) in
    subst (λ v. (v.raw ≡ drop 1 raw) × (print v.entries ≡ drop 1 raw) × DistinctKeys v.entries) e4
      (sliced, printed ∙ decoded ∙ sliced, distinct)
