-- ===== src/Protocol/Parse/Pieces.antt =====
-- The pieces that the parsers share: length checks, text, and route descriptors.
use meshquill.Common.Utf8.{from_utf8, Text}
use meshquill.Common.{
  Bool, List, Option, Outcome, String, err, false, if◌then◌else◌, length, ltb, none, not, ok,
  position, reject_if, signed, some, take, true, ℕ, ◌%◌, ◌*◌, ◌+◌, ◌/◌, ◌==◌, ◌>>=◌, ◌>>◌,
}
use meshquill.Error.{
  ParseError, PacketDisplay, malformed, invalid_packet_length, invalid_utf8_payload,
}
use meshquill.Protocol.PacketCode.{PacketCode, to_u8}
use meshquill.Domain.{ContactRoute, MessageRoute}
use meshquill.Platform.{Platform}

-- The result of a parser.
abbrev pub Parsed {ℓ} : Type ℓ → Type ℓ
Parsed A = Outcome ParseError A

unfoldable pub require_len : List ℕ → ℕ → PacketCode → Parsed (Unit {0})
require_len raw minimum code =
    if ltb (length raw) minimum
    then err (invalid_packet_length (PacketDisplay.raw (to_u8 code)) minimum (length raw))
    else ok tt

unfoldable pub require_exact_len : List ℕ → ℕ → PacketCode → Parsed (Unit {0})
unfolding require_len
require_exact_len raw expected code = do
  require_len raw expected code
  reject_if (not (length raw == expected)) (malformed "packet contains unexpected trailing bytes")

-- `condition.then(|| read)` on a read that may panic.
abbrev pub then_read {ℓ} : {A : Type ℓ} → Bool → Parsed A → Parsed (Option A)
then_read true read = read >>= λ a. ok (some a)
then_read false read = ok none

-- `String::from_utf8`, its error made a `ParseError`.
unfoldable pub decode_text : List ℕ → String → Parsed Text
decode_text raw context = elim (from_utf8 raw) [
  | none ↦ err (invalid_utf8_payload context)
  | some text ↦ ok text
]

abbrev pub position_or_length : Option ℕ → List ℕ → ℕ
position_or_length none raw = length raw
position_or_length (some n) raw = n

-- The bytes before the first zero.
unfoldable pub until_zero : List ℕ → List ℕ
until_zero raw = take (position_or_length (position 0 raw) raw) raw

unfoldable pub decode_padded_string : List ℕ → String → Parsed Text
unfolding decode_text until_zero
decode_padded_string raw context = decode_text (until_zero raw) context

-- A route byte: 0xff, or a hash mode in the high two bits and a hop count in the low six.
unfoldable pub message_route : ℕ → MessageRoute
message_route route_byte =
    if route_byte == 255
    then MessageRoute.direct
    else MessageRoute.path (route_byte / 64) (route_byte % 64)

-- The route of a descriptor and the number of path bytes that belong to it, as `parse_contact`,
-- `parse_advert_path` and `parse_discovered_path` each compute them. The product is at most 252.
unfoldable pub contact_route : ℕ → ContactRoute × ℕ
contact_route descriptor = if descriptor == 255 then (ContactRoute.flood, 0) else (
  ContactRoute.path (descriptor / 64) (descriptor % 64),
  descriptor % 64 * (descriptor / 64 + 1),
)

module _ (p : Platform) where
  open p use {F64, of_i32, of_u32, div}

  -- The value of `parse_scaled_i32` for the four bytes of `bits`.
  unfoldable pub parse_scaled_i32 : ℕ → F64
  parse_scaled_i32 bits = div (of_i32 (signed 32 bits)) (of_u32 1000000)
