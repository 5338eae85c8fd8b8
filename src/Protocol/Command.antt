-- ===== src/Protocol/Command.antt =====
-- crates/meshquill-core/src/protocol.rs: `Command`, and the checks that its builders share. The
-- builders are in the modules below.
pub mod Device
pub mod Peers
use meshquill.Common.Utf8.{Text}
use meshquill.Common.{
  Bool, List, Outcome, String, [], contains, drop, false, if◌then◌else◌, leb, length, ltb, not, ok,
  panic, pattern_of, reject_if, replicate, take, u32_to_le, ℕ, ℤ, ◌&&◌, ◌*◌, ◌++◌, ◌+◌, ◌-◌, ◌==◌,
  ◌>>=◌, ◌>>◌, ◌||◌, ◌∷◌,
}
use Prim.Native.Nat.{bit_or}
use meshquill.Error.{CoreError, invalid_argument}
use meshquill.Platform.{Platform}
use meshquill.Domain.{
  ContactType, ContactRoute, MeshPath, flood, path, chat, repeater, room, sensor,
}
use meshquill.Protocol.CommandCode.{CommandCode, to_u8}

pub record Command : Type 0 where
  pub code : CommandCode
  pub payload : List ℕ

-- What a builder returns.
abbrev pub Built {ℓ} : Type ℓ → Type ℓ
Built A = Outcome CoreError A

abbrev pub max_inner_payload : ℕ
max_inner_payload = 176

-- `Command::encode`; `into_encoded` gives the same bytes.
unfoldable pub encode : Command → List ℕ
encode command = to_u8 command.code ∷ command.payload

unfoldable pub without_payload : CommandCode → Command
without_payload code = record { code = code; payload = [] }

unfoldable pub checked : CommandCode → List ℕ → Built Command
checked code payload = do
  reject_if (ltb max_inner_payload (length payload + 1)) (invalid_argument "payload")
  ok (record { code = code; payload = payload })

unfoldable pub command_with_key : CommandCode → List ℕ → List ℕ → Built Command
unfolding checked
command_with_key code public_key prefix = do
  reject_if (not (length public_key == 32)) (invalid_argument "public_key")
  checked code (prefix ++ public_key)

unfoldable pub command_with_key_suffix : CommandCode → List ℕ → List ℕ → Built Command
unfolding checked
command_with_key_suffix code public_key suffix = do
  reject_if (not (length public_key == 32)) (invalid_argument "public_key")
  checked code (public_key ++ suffix)

unfoldable pub contact_type_to_u8 : ContactType → ℕ
contact_type_to_u8 chat = 0
contact_type_to_u8 repeater = 1
contact_type_to_u8 room = 2
contact_type_to_u8 sensor = 3
contact_type_to_u8 (ContactType.unknown value) = value

unfoldable pub encode_contact_route : ContactRoute → MeshPath → Built ℕ
encode_contact_route flood out_path = do
  reject_if (not (length out_path.bytes == 0)) (invalid_argument "path")
  ok 255
encode_contact_route (path hash_mode hop_count) out_path = do
  reject_if (ltb 2 hash_mode || ltb 63 hop_count) (invalid_argument "route")
  let expected = hop_count * (hash_mode + 1)
  reject_if (not (length out_path.bytes == expected)) (invalid_argument "path")
  reject_if (ltb 64 expected) (invalid_argument "path")
  ok (bit_or (hash_mode * 64) hop_count)

unfoldable pub validate_text_field : Text → ℕ → String → Built (Unit {0})
validate_text_field value maximum_bytes field = do
  reject_if (length value == 0) (invalid_argument field)
  reject_if (ltb maximum_bytes (length value)) (invalid_argument field)

-- `name.as_bytes().contains(&0)` is an error of the field.
unfoldable pub refuse_nul : Text → String → Built (Unit {0})
refuse_nul value field = reject_if (contains 0 value) (invalid_argument field)

-- The bytes zero, colon and comma.
unfoldable pub has_separator : Text → Bool
has_separator [] = false
has_separator (b ∷ bs) = (b == 0 || b == b':' || b == b',') || has_separator bs

unfoldable pub validate_custom_component : Text → String → Built (Unit {0})
unfolding validate_text_field has_separator
validate_custom_component value field = do
  validate_text_field value (max_inner_payload - 2) field
  reject_if (has_separator value) (invalid_argument field)

unfoldable pub validate_range : ℕ → ℕ → ℕ → String → Built (Unit {0})
validate_range value minimum maximum field =
    reject_if (ltb value minimum || ltb maximum value) (invalid_argument field)

-- `Vec::resize(n, 0)`
unfoldable pub resize : List ℕ → ℕ → List ℕ
resize bytes n = take n bytes ++ replicate (n - length bytes) 0

-- `payload[a..b].copy_from_slice(bytes)` panics unless the range exists and has as many bytes.
unfoldable pub copy_into : List ℕ → ℕ → ℕ → List ℕ → Built (List ℕ)
copy_into payload a b bytes =
    if leb a b && leb b (length payload) && length bytes == b - a
    then ok (take a payload ++ (bytes ++ drop b payload))
    else panic

-- `i32::to_le_bytes`
unfoldable pub i32_to_le : ℤ → List ℕ
unfolding u32_to_le pattern_of
i32_to_le z = u32_to_le (pattern_of 32 z)

module _ (p : Platform) where
  open p use {F64, of_u32, mul, lt, is_finite, to_i32}

  unfoldable pub scaled_coordinate : F64 → F64 → F64 → String → Built ℤ
  scaled_coordinate value minimum maximum field = do
    reject_if (not (is_finite value) || lt value minimum || lt maximum value)
        (invalid_argument field)
    ok (to_i32 (mul value (of_u32 1000000)))
