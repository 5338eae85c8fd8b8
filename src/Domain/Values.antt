-- ===== src/Domain/Values.antt =====
-- crates/meshquill-core/src/domain.rs: the checked constructors and the methods of domain values.
use mathlib.Core.Option
use meshquill.Common.{
  Bool, List, Option, Outcome, [], arm, err, get_elem?, get_or, if◌then◌else◌, length, ltb, none,
  not, ok, read_i8, read_u32, reject_if, slice_from, some, ℕ, ◌%◌, ◌+◌, ◌/◌, ◌==◌, ◌>>=◌, ◌>>◌,
  ◌||◌, ◌∷◌,
}
use meshquill.Domain.{
  Text, PublicKey, PrivateKeyMaterial, MeshPath, Signature, ContactType, chat, repeater, room,
  sensor, LoginSession, ControlData, NodeDiscoveryResponse, ChannelInfo,
}
use meshquill.Error.{CoreError, ParseError, PacketDisplay, malformed, invalid_packet_length}

-- `PublicKey::try_from_bytes`
unfoldable pub try_public_key : List ℕ → Outcome CoreError PublicKey
try_public_key bytes =
    if length bytes == 32
    then ok (record { bytes = bytes })
    else err (CoreError.protocol_invariant "public key must be exactly 32 bytes")

-- `PrivateKeyMaterial::try_from_bytes`
unfoldable pub try_private_key : List ℕ → Outcome CoreError PrivateKeyMaterial
try_private_key bytes =
    if length bytes == 64
    then ok (record { bytes = bytes })
    else err (CoreError.protocol_invariant "private key must be exactly 64 bytes")

abbrev pub max_path_bytes : ℕ
max_path_bytes = 128

-- `Path::try_from_bytes`
unfoldable pub try_path : List ℕ → Outcome CoreError MeshPath
try_path bytes =
    if ltb max_path_bytes (length bytes)
    then err (CoreError.protocol_invariant "path exceeds maximum bytes")
    else ok (record { bytes = bytes })

-- `Signature::try_from_bytes`
unfoldable pub try_signature : List ℕ → Outcome CoreError Signature
try_signature bytes =
    if not (length bytes == 64)
    then err (CoreError.protocol_invariant "signature must be exactly 64 bytes")
    else ok (record { bytes = bytes })

-- `ContactType::from_u8`
unfoldable pub contact_type_from_u8 : ℕ → ContactType
contact_type_from_u8 raw =
    arm ((0, chat) ∷ (1, repeater) ∷ (2, room) ∷ (3, sensor) ∷ []) raw (ContactType.unknown raw)

-- `LoginSession::is_admin`
unfoldable pub is_admin : LoginSession → Bool
is_admin session = session.permissions % 2 == 1

-- `ChannelInfo::with_secret`; `sha256` is that of the crate `sha2`.
unfoldable pub with_secret : (List ℕ → List ℕ) → ℕ → Text → Option (List ℕ) → ChannelInfo
with_secret sha256 idx name secret = record {
  idx = idx;
  name = name;
  secret_hash = Option.map (λ value. get_or (sha256 value) 0 0) secret;
  secret = secret;
}

abbrev pub prefix_response_bytes : ℕ
prefix_response_bytes = 1 + 1 + 4 + 8

abbrev pub full_response_bytes : ℕ
full_response_bytes = 1 + 1 + 4 + 32

-- `ControlData::node_discovery_response` from the control type on; `/ 16` and `% 16` are the two
-- halves of the control type.
unfoldable pub discovery_response : List ℕ → ℕ → Outcome ParseError (Option NodeDiscoveryResponse)
discovery_response payload control_type = if not (control_type / 16 == 9) then ok none else (do
  reject_if (ltb (length payload) prefix_response_bytes)
      (invalid_packet_length (PacketDisplay.raw 0x8e) prefix_response_bytes (length payload))
  reject_if (not (length payload == prefix_response_bytes || length payload == full_response_bytes))
      (malformed "node-discovery response public key must be exactly 8 or 32 bytes")
  tag ← read_u32 payload 2
  reject_if (tag == 0) (malformed "node-discovery response tag must be non-zero")
  snr ← read_i8 payload 1
  key ← slice_from payload 6
  ok (
      some (record {
        node_type = control_type % 16;
        inbound_snr_qdb = snr;
        tag = tag;
        public_key = key;
      })))

-- `ControlData::node_discovery_response`
unfoldable pub node_discovery_response :
    ControlData → Outcome ParseError (Option NodeDiscoveryResponse)
unfolding discovery_response
node_discovery_response control = elim (get_elem? control.payload 0) [
  | none ↦ err (invalid_packet_length (PacketDisplay.raw 0x8e) 1 0)
  | some control_type ↦ discovery_response control.payload control_type
]
