-- ===== src/Remote/AnswerSafety.antt =====
-- The parsers of the answers that have no telemetry.
use meshquill.Common.Utf8.{Text}
use meshquill.Common.Search.{position_bound}
use meshquill.Remote.Answers.{
  check_max_len, count_of, decode_string, neighbours_from, owner_of, parse_acl_payload,
  parse_basic_response, parse_neighbour_page, parse_owner_response, parse_regions_response,
  read_i16_le, read_u32_le, trim_at, trim_trailing_nul,
}
use meshquill.Common.{
  List, NoPanic, NoPanic-err, NoPanic-ok, Option, String, [], arith, length, negsuc, none, pos,
  position, refl, some, suc, zero, ℕ, ℤ, ◌*◌, ◌+◌, ◌<◌, ◌∷◌, ◌≡◌, ◌≤◌,
}
use meshquill.Protocol.Safety.Rules.{safe}

pub NoPanic-check_max_len : (payload : List ℕ) → NoPanic (check_max_len payload)
unfolding check_max_len
NoPanic-check_max_len payload = record { ne = λ e. ground arith }

NoPanic-read_i16_le : (raw : List ℕ) (idx : ℕ) → NoPanic (read_i16_le raw idx)
unfolding read_i16_le
NoPanic-read_i16_le raw idx = record { ne = λ e. ground arith }

pub NoPanic-read_u32_le : (raw : List ℕ) (idx : ℕ) → NoPanic (read_u32_le raw idx)
unfolding read_u32_le
NoPanic-read_u32_le raw idx = record { ne = λ e. ground arith }

NoPanic-count_of : (n : ℤ) → NoPanic (count_of n)
unfolding count_of
NoPanic-count_of (pos n) = NoPanic-ok n
NoPanic-count_of (negsuc n) = NoPanic-err _

NoPanic-decode_string : (raw : List ℕ) (context : String) → NoPanic (decode_string raw context)
unfolding decode_string
NoPanic-decode_string raw context = record { ne = λ e. ground arith }

NoPanic-trim_at :
    (raw : List ℕ) (context : String) (o : Option ℕ)
    → ((k : ℕ) → o ≡ some k → k < length raw)
    → NoPanic (trim_at raw context o)
unfolding trim_at
NoPanic-trim_at raw context none h = NoPanic-ok raw
NoPanic-trim_at raw context (some k) h =
    let inside : k < length raw = h k refl in search safe depth 40 fits 20000

NoPanic-trim_trailing_nul :
    (raw : List ℕ) (context : String) → NoPanic (trim_trailing_nul raw context)
unfolding trim_trailing_nul
NoPanic-trim_trailing_nul raw context =
    NoPanic-trim_at raw context (position 0 raw) (position_bound 0 raw)

NoPanic-owner_of : (clock : ℕ) (lines : List Text) → NoPanic (owner_of clock lines)
unfolding owner_of
NoPanic-owner_of clock [] = NoPanic-err _
NoPanic-owner_of clock (name ∷ []) = search safe depth 40 fits 20000
NoPanic-owner_of clock (name ∷ owner ∷ rest) = search safe depth 40 fits 20000

ruleset remote = (
  safe, NoPanic-check_max_len, NoPanic-read_i16_le, NoPanic-read_u32_le, NoPanic-count_of,
  NoPanic-decode_string, NoPanic-trim_trailing_nul, NoPanic-owner_of,
)

-- The entries that are left fit what is left of the payload.
NoPanic-neighbours_from :
    (payload : List ℕ) (prefix_length left cursor : ℕ)
    → cursor + left * (prefix_length + 5) ≤ length payload
    → NoPanic (neighbours_from payload prefix_length left cursor)
unfolding neighbours_from
NoPanic-neighbours_from payload prefix_length zero cursor h = NoPanic-ok []
NoPanic-neighbours_from payload prefix_length (suc left) cursor h =
    let room : cursor + (prefix_length + 5) + left * (prefix_length + 5) ≤ length payload =
      omega arith in
    let entry : cursor + (prefix_length + 5) ≤ length payload = omega arith in
    let rest =
      NoPanic-neighbours_from payload prefix_length left (cursor + (prefix_length + 5)) room in
    search (remote, rest) depth 40 fits 20000

pub NoPanic-parse_neighbour_page :
    (payload : List ℕ) (prefix_length : ℕ) → NoPanic (parse_neighbour_page payload prefix_length)
unfolding parse_neighbour_page
NoPanic-parse_neighbour_page payload prefix_length =
    search (remote, NoPanic-neighbours_from) depth 40 fits 20000

pub NoPanic-parse_regions_response : (payload : List ℕ) → NoPanic (parse_regions_response payload)
unfolding parse_regions_response
NoPanic-parse_regions_response payload = search remote depth 40 fits 20000

pub NoPanic-parse_owner_response : (payload : List ℕ) → NoPanic (parse_owner_response payload)
unfolding parse_owner_response
NoPanic-parse_owner_response payload = search remote depth 40 fits 20000

pub NoPanic-parse_basic_response : (payload : List ℕ) → NoPanic (parse_basic_response payload)
unfolding parse_basic_response
NoPanic-parse_basic_response payload = search remote depth 40 fits 20000

pub NoPanic-parse_acl_payload : (payload : List ℕ) → NoPanic (parse_acl_payload payload)
unfolding parse_acl_payload
NoPanic-parse_acl_payload payload = search remote depth 40 fits 20000
