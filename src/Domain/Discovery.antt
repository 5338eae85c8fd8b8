-- ===== src/Domain/Discovery.antt =====
-- crates/meshquill-core/src/domain.rs, `ControlData::node_discovery_response`.
use meshquill.Domain.{ControlData, NodeDiscoveryResponse}
use meshquill.Common.{
  ◌*◌, [], ◌∷◌, Option-cases, get_elem?, panic, ◌+◌, ◌<◌, ◌≢◌, ◌⊎◌, Bool-cases, List, arith, byte,
  drop, err, if◌then◌else◌, inl, inr, length, ltb, ltb→le, none, not, ok, read_i8, read_u32, signed,
  slice_from, some, u32_of, ℕ, ◌%◌, ◌/◌, ◌==◌, ◌||◌, ◌≡◌, ◌≤◌,
}
use meshquill.Error.{PacketDisplay, malformed, invalid_packet_length}
use meshquill.Domain.Values.{node_discovery_response, discovery_response}
use meshquill.Common.Bytes.{read_u32_lem, read_i8_lem, slice_from_lem}
use meshquill.Error.{ParseError}

pieces :
    (payload : List ℕ)
    → 14 ≤ length payload
    → (read_u32 {E = ParseError} payload 2 ≡ ok (u32_of payload 2))
      × (read_i8 {E = ParseError} payload 1 ≡ ok (signed 8 (byte payload 1)))
      × (slice_from {E = ParseError} payload 6 ≡ ok (drop 6 payload))
pieces payload h = (
  read_u32_lem payload 2 (omega arith),
  read_i8_lem payload 1 (omega arith),
  slice_from_lem payload 6 (omega arith),
)

-- What a control type other than 9 in the high half, a wrong length or a zero tag makes of a payload.
discovery_response_lem :
    (payload : List ℕ) (control_type : ℕ)
    → discovery_response payload control_type ≡ (
        if not (control_type / 16 == 9)
        then ok none
        else if ltb (length payload) 14
        then err (invalid_packet_length (PacketDisplay.raw 0x8e) 14 (length payload))
        else if not (length payload == 14 || length payload == 38)
        then err (malformed "node-discovery response public key must be exactly 8 or 32 bytes")
        else if u32_of payload 2 == 0
        then err (malformed "node-discovery response tag must be non-zero")
        else ok (
            some (record {
              node_type = control_type % 16;
              inbound_snr_qdb = signed 8 (byte payload 1);
              tag = u32_of payload 2;
              public_key = drop 6 payload;
            })))
unfolding discovery_response
discovery_response_lem payload control_type = elim (Bool-cases (ltb (length payload) 14)) [
  | inl short ↦ ground (arith, short)
  | inr long ↦
      let (a, b, c) = pieces payload (omega (arith, ltb→le _ _ long)) in
      ground (arith, long, a, b, c)
]

-- The response that the bytes of a payload make up: its first byte is the control type 9 in the high
-- half and the node type in the low one, then come the signal-to-noise ratio, the tag and the key.
abbrev pub IsResponse : List ℕ → NodeDiscoveryResponse → Type 0
IsResponse payload r =
    (byte payload 0 ≡ 9 * 16 + r.node_type)
    × (r.node_type < 16)
    × (r.inbound_snr_qdb ≡ signed 8 (byte payload 1))
    × (r.tag ≡ u32_of payload 2)
    × (0 < r.tag)
    × (r.public_key ≡ drop 6 payload)
    × ((length payload ≡ 14) ⊎ (length payload ≡ 38))

byte-get_elem? : (xs : List ℕ) (b : ℕ) → get_elem? xs 0 ≡ some b → byte xs 0 ≡ b
byte-get_elem? [] b e = cc
byte-get_elem? (x ∷ xs) b e = cc

discovery_response-eq-ok :
    (payload : List ℕ) (control_type : ℕ) (r : NodeDiscoveryResponse)
    → byte payload 0 ≡ control_type
    → discovery_response payload control_type ≡ ok (some r)
    → IsResponse payload r
discovery_response-eq-ok payload control_type r first h =
    ground (arith, discovery_response_lem payload control_type)

-- A node-discovery response that is accepted is the one whose bytes the payload holds: the control
-- type 9 with the node type, a number below 16, the signed signal-to-noise ratio in the next byte,
-- the tag, which is not zero, in the four bytes behind it, and from the seventh byte on the public
-- key; the payload has 14 or 38 bytes, so that the key has 8 or 32.
pub node_discovery_response-eq-ok :
    (control : ControlData) (r : NodeDiscoveryResponse)
    → node_discovery_response control ≡ ok (some r)
    → IsResponse control.payload r
unfolding node_discovery_response
node_discovery_response-eq-ok control r h = elim (Option-cases (get_elem? control.payload 0)) [
  | inl e ↦ ground (arith, e)
  | inr (b, e) ↦
      discovery_response-eq-ok control.payload b r (byte-get_elem? control.payload b e)
        (ground (arith, e))
]

discovery_response-ne-panic :
    (payload : List ℕ) (control_type : ℕ) → discovery_response payload control_type ≢ panic
discovery_response-ne-panic payload control_type =
    λ e. ground (arith, discovery_response_lem payload control_type)

-- `node_discovery_response` panics on no control data.
pub node_discovery_response-ne-panic :
    (control : ControlData) → node_discovery_response control ≢ panic
unfolding node_discovery_response
node_discovery_response-ne-panic control = λ h. elim (Option-cases (get_elem? control.payload 0)) [
  | inl e ↦ ground (arith, e)
  | inr (b, e) ↦ discovery_response-ne-panic control.payload b (ground (arith, e))
]
