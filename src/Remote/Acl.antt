-- ===== src/Remote/Acl.antt =====
-- The access list against the slots that the payload holds.
use meshquill.Remote.Answers.{check_max_len, parse_acl_payload, has_nonzero, acl_entries, acl_slot}
use meshquill.Remote.{AclEntry}
use meshquill.Common.{
  ltb, ◌%◌, ◌==◌, Bool, ap, false, not, ok, replicate, true, ◌∙◌, ◌≤◌, All, List, [], arith,
  if◌then◌else◌, length, length-append, refl, same_bytes, ℕ, ◌*◌, ◌++◌, ◌∷◌, ◌≡◌,
}

-- The payload of some slots, of each the key prefix and the permissions.
abbrev pub slots : List AclEntry → List ℕ
slots [] = []
slots (entry ∷ entries) = entry.pubkey_prefix ++ (entry.permissions ∷ slots entries)

-- The slots that are in use: a prefix of zeros marks one that is not.
abbrev pub in_use : List AclEntry → List AclEntry
in_use [] = []
in_use (entry ∷ entries) =
    if has_nonzero entry.pubkey_prefix then entry ∷ in_use entries else in_use entries

abbrev pub HasPrefix : AclEntry → Type 0
HasPrefix entry = length entry.pubkey_prefix ≡ 6

same_bytes_zeros : (xs : List ℕ) → same_bytes xs (replicate (length xs) 0) ≡ not (has_nonzero xs)
unfolding same_bytes has_nonzero
same_bytes_zeros [] = refl
same_bytes_zeros (x ∷ xs) = ground (arith, same_bytes_zeros xs)

if_not : {A : Type 0} (b : Bool) (x y : A) → (if not b then x else y) ≡ (if b then y else x)
if_not true x y = refl
if_not false x y = refl

-- The first slot of a payload.
first_slot :
    (prefix : List ℕ) (permissions : ℕ) (rest : List ℕ)
    → length prefix ≡ 6
    → acl_entries (prefix ++ (permissions ∷ rest)) ≡ (
        if has_nonzero prefix
        then record { pubkey_prefix = prefix; permissions = permissions } ∷ acl_entries rest
        else acl_entries rest)
unfolding acl_entries acl_slot
first_slot (a ∷ b ∷ c ∷ d ∷ e ∷ f ∷ []) permissions rest h =
    let prefix : List ℕ = a ∷ b ∷ c ∷ d ∷ e ∷ f ∷ [] in
    let entries : List AclEntry = acl_entries rest in
    let entry : AclEntry = record { pubkey_prefix = prefix; permissions = permissions } in
    ap (λ (t : Bool). if t then entries else entry ∷ entries) (same_bytes_zeros prefix)
    ∙ if_not (has_nonzero prefix) entries (entry ∷ entries)
first_slot [] permissions rest h = absurd (omega arith)
first_slot (a ∷ []) permissions rest h = absurd (omega arith)
first_slot (a ∷ b ∷ []) permissions rest h = absurd (omega arith)
first_slot (a ∷ b ∷ c ∷ []) permissions rest h = absurd (omega arith)
first_slot (a ∷ b ∷ c ∷ d ∷ []) permissions rest h = absurd (omega arith)
first_slot (a ∷ b ∷ c ∷ d ∷ e ∷ []) permissions rest h = absurd (omega arith)
first_slot (a ∷ b ∷ c ∷ d ∷ e ∷ f ∷ g ∷ more) permissions rest h = absurd (omega arith)

acl_entries-slots : (es : List AclEntry) → All HasPrefix es → acl_entries (slots es) ≡ in_use es
unfolding acl_entries
acl_entries-slots [] h = refl
acl_entries-slots (entry ∷ es) (six, h) =
    first_slot entry.pubkey_prefix entry.permissions (slots es) six
    ∙ ap (λ rest. if has_nonzero entry.pubkey_prefix then entry ∷ rest else rest)
        (acl_entries-slots es h)

length-slots : (es : List AclEntry) → All HasPrefix es → length (slots es) ≡ 7 * length es
length-slots [] h = refl
length-slots (entry ∷ es) (six, h) =
    omega
      (arith, length-append entry.pubkey_prefix (entry.permissions ∷ slots es), length-slots es h)

-- An access list is read back: the payload of slots, of which each has a key prefix of six bytes
-- and which together fit a companion packet, parses to exactly those slots, in their order, whose
-- prefix is not all zeros.
pub parse_acl_payload-slots :
    (es : List AclEntry)
    → All HasPrefix es
    → 7 * length es ≤ 176
    → parse_acl_payload (slots es) ≡ ok (record { entries = in_use es })
unfolding parse_acl_payload check_max_len
parse_acl_payload-slots es h fits =
    let size : length (slots es) ≡ 7 * length es = length-slots es h in
    let small : ltb 176 (length (slots es)) ≡ false = ground (arith, size) in
    let whole : (length (slots es) % 7 == 0) ≡ true = ground (arith, size) in
    rw small (rw whole (ap (λ entries. ok (record { entries = entries })) (acl_entries-slots es h)))
