-- ===== src/Remote/Answers.antt =====
-- The parsers of the answers.
use meshquill.Common.Utf8.{Text, from_utf8}
use meshquill.Remote.{
  AclResponse, BasicResponse, NeighbourEntry, NeighbourPage, OwnerResponse, RegionsResponse,
  invalid_utf8, malformed, payload_too_large, truncated, AclEntry, Checked, from_feature_byte,
}
use meshquill.Common.{
  Bool, List, Option, String, [], at, err, false, if◌then◌else◌, leb, length, ltb, negsuc, none,
  not, ok, pos, position, reject_if, same_bytes, signed, slice, slice_from, some, split_on, suc,
  u16_of, u32_of, zero, ℕ, ℤ, ◌%◌, ◌*◌, ◌+◌, ◌==◌, ◌>>=◌, ◌>>◌, ◌||◌, ◌∷◌,
}

abbrev pub max_remote_payload_len : ℕ
max_remote_payload_len = 176

unfoldable pub check_max_len : List ℕ → Checked (Unit {0})
check_max_len payload =
    reject_if (ltb max_remote_payload_len (length payload))
      (payload_too_large (length payload) max_remote_payload_len)

-- Some byte is not zero.
unfoldable pub has_nonzero : List ℕ → Bool
has_nonzero [] = false
has_nonzero (b ∷ bytes) = not (b == 0) || has_nonzero bytes

-- `trim_trailing_nul` with the position of the first zero.
unfoldable pub trim_at : List ℕ → String → Option ℕ → Checked (List ℕ)
unfolding has_nonzero
trim_at raw context none = ok raw
trim_at raw context (some first_zero) = do
  rest ← slice_from raw (first_zero + 1)
  reject_if (has_nonzero rest) (malformed context)
  slice raw 0 first_zero

unfoldable pub trim_trailing_nul : List ℕ → String → Checked (List ℕ)
unfolding trim_at position
trim_trailing_nul raw context = trim_at raw context (position 0 raw)

unfoldable pub decode_string : List ℕ → String → Checked Text
unfolding from_utf8
decode_string raw context = elim (from_utf8 raw) [
  | none ↦ err (invalid_utf8 context)
  | some text ↦ ok text
]

unfoldable pub read_i16_le : List ℕ → ℕ → Checked ℤ
unfolding signed
read_i16_le raw idx =
    if leb (idx + 2) (length raw)
    then ok (signed 16 (u16_of raw idx))
    else err (truncated "fixed field")

unfoldable pub read_u32_le : List ℕ → ℕ → Checked ℕ
read_u32_le raw idx =
    if leb (idx + 4) (length raw) then ok (u32_of raw idx) else err (truncated "fixed field")

-- A count that is not negative.
unfoldable pub count_of : ℤ → Checked ℕ
count_of (pos n) = ok n
count_of (negsuc n) = err (malformed "neighbour counts must not be negative")

module _ (payload : List ℕ) (prefix_length : ℕ) where
  -- The loop of `parse_neighbour_page` over the entries that are left, from `cursor` on.
  unfoldable pub neighbours_from : ℕ → ℕ → Checked (List NeighbourEntry)
  unfolding slice at read_u32_le signed
  neighbours_from zero cursor = ok []
  neighbours_from (suc left) cursor = do
    let prefix_end = cursor + prefix_length
    pubkey_prefix ← slice payload cursor prefix_end
    secs_ago ← read_u32_le payload prefix_end
    snr_raw ← at payload (prefix_end + 4)
    rest ← neighbours_from left (cursor + (prefix_length + 5))
    ok (
        record { pubkey_prefix = pubkey_prefix; secs_ago = secs_ago; snr_db = signed 8 snr_raw }
        ∷ rest)

  unfoldable pub parse_neighbour_page : Checked NeighbourPage
  unfolding check_max_len read_i16_le count_of neighbours_from
  parse_neighbour_page = do
    check_max_len payload
    reject_if (ltb prefix_length 1 || ltb 32 prefix_length)
        (malformed "prefix length must be between 1 and 32")
    reject_if (ltb (length payload) 4) (truncated "neighbour header")
    total ← read_i16_le payload 0
    result ← read_i16_le payload 2
    total_count ← count_of total
    result_count ← count_of result
    reject_if (ltb total_count result_count)
        (malformed "neighbour result count exceeds total count")
    reject_if (not (4 + result_count * (prefix_length + 5) == length payload))
        (malformed "neighbour page length mismatch")
    entries ← neighbours_from result_count 4
    ok (record { total_count = total_count; result_count = result_count; entries = entries })

-- Some name is empty.
unfoldable pub has_empty : List Text → Bool
has_empty [] = false
has_empty (name ∷ names) = (length name == 0) || has_empty names

unfoldable pub parse_regions_response : List ℕ → Checked RegionsResponse
unfolding check_max_len read_u32_le slice_from trim_trailing_nul decode_string split_on has_empty
parse_regions_response payload = do
  check_max_len payload
  reject_if (ltb (length payload) 4) (truncated "regions header")
  clock ← read_u32_le payload 0
  body ← slice_from payload 4
  text ← trim_trailing_nul body "regions"
  reject_if (length text == 0) (malformed "at least one region entry is required")
  value ← decode_string text "regions"
  let names = split_on b',' value
  reject_if (length names == 0 || has_empty names)
      (malformed "at least one region entry is required")
  ok (record { clock = clock; names = names })

-- The lines of an owner's text.
unfoldable pub owner_of : ℕ → List Text → Checked OwnerResponse
owner_of clock [] = err (malformed "owner name")
owner_of clock (name ∷ []) = do
  reject_if (length name == 0) (malformed "owner name")
  err (malformed "owner identity")
owner_of clock (name ∷ owner ∷ rest) = do
  reject_if (length name == 0) (malformed "owner name")
  reject_if (length owner == 0) (malformed "owner identity")
  reject_if (not (length rest == 0)) (malformed "owner contains too many fields")
  ok (record { clock = clock; name = name; owner = owner })

unfoldable pub parse_owner_response : List ℕ → Checked OwnerResponse
unfolding check_max_len read_u32_le slice_from trim_trailing_nul decode_string split_on owner_of
parse_owner_response payload = do
  check_max_len payload
  reject_if (ltb (length payload) 4) (truncated "owner header")
  clock ← read_u32_le payload 0
  raw ← slice_from payload 4
  body ← trim_trailing_nul raw "owner"
  text ← decode_string body "owner"
  owner_of clock (split_on 10 text)

unfoldable pub parse_basic_response : List ℕ → Checked BasicResponse
unfolding check_max_len read_u32_le at from_feature_byte
parse_basic_response payload = do
  check_max_len payload
  reject_if (not (length payload == 5)) (malformed "basic payload must be exactly five bytes")
  clock ← read_u32_le payload 0
  feature ← at payload 4
  ok (record { clock = clock; feature = from_feature_byte feature })

-- A slot of the access list that is not a tombstone.
unfoldable pub acl_slot : List ℕ → ℕ → List AclEntry → List AclEntry
unfolding same_bytes
acl_slot pubkey_prefix permissions entries =
    if same_bytes pubkey_prefix (0 ∷ 0 ∷ 0 ∷ 0 ∷ 0 ∷ 0 ∷ [])
    then entries
    else record { pubkey_prefix = pubkey_prefix; permissions = permissions } ∷ entries

-- The loop over the chunks of seven bytes.
unfoldable pub acl_entries : List ℕ → List AclEntry
unfolding acl_slot
acl_entries (a ∷ b ∷ c ∷ d ∷ e ∷ f ∷ permissions ∷ rest) =
    acl_slot (a ∷ b ∷ c ∷ d ∷ e ∷ f ∷ []) permissions (acl_entries rest)
acl_entries fewer = []

unfoldable pub parse_acl_payload : List ℕ → Checked AclResponse
unfolding check_max_len acl_entries
parse_acl_payload payload = do
  check_max_len payload
  reject_if (not (length payload % 7 == 0)) (malformed "acl payload length must be a multiple of 7")
  ok (record { entries = acl_entries payload })
