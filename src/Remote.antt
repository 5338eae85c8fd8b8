-- ===== src/Remote.antt =====
-- crates/meshquill-core/src/remote.rs: the payloads of requests to a remote device and of its
-- answers about access lists, neighbours, regions, its owner, its features and its telemetry
-- summaries. A signal-to-noise ratio is kept as the quarters that the payload holds, an exact value.
pub mod Answers
pub mod AnswerSafety
pub mod SummarySafety
pub mod Safety
pub mod Acl
pub mod Telemetry
mod Runs
use meshquill.Common.Utf8.{Text}
use meshquill.Common.{
  Bool, List, Option, Outcome, String, [], arm, false, if◌then◌else◌, leb, ltb, none, not, ok,
  reject_if, some, true, u32_to_le, ℕ, ℤ, ◌%◌, ◌++◌, ◌/◌, ◌==◌, ◌>>=◌, ◌>>◌, ◌||◌, ◌∷◌,
}
use Prim.Native.Nat.{bit_or}

pub data RemotePayloadError : Type 0 where
  payload_too_large : ℕ → ℕ → RemotePayloadError
  truncated : String → RemotePayloadError
  unknown_type : ℕ → RemotePayloadError
  invalid_utf8 : String → RemotePayloadError
  malformed : String → RemotePayloadError
  non_finite : String → RemotePayloadError

pub data BinaryRequestKind : Type 0 where
  status keep_alive telemetry summary acl neighbours : BinaryRequestKind

unfoldable pub binary_code : BinaryRequestKind → ℕ
binary_code status = 1
binary_code keep_alive = 2
binary_code telemetry = 3
binary_code summary = 4
binary_code acl = 5
binary_code neighbours = 6

unfoldable pub has_fixed_payload : BinaryRequestKind → Bool
has_fixed_payload acl = true
has_fixed_payload summary = true
has_fixed_payload kind = false

pub data AnonymousRequestKind : Type 0 where
  regions owner basic : AnonymousRequestKind

unfoldable pub anonymous_code : AnonymousRequestKind → ℕ
anonymous_code regions = 1
anonymous_code owner = 2
anonymous_code basic = 3

pub data NeighbourOrder : Type 0 where
  newest oldest strongest weakest : NeighbourOrder
  unknown : ℕ → NeighbourOrder

unfoldable pub order_code : NeighbourOrder → ℕ
order_code newest = 0
order_code oldest = 1
order_code strongest = 2
order_code weakest = 3
order_code (unknown value) = value

unfoldable pub order_from_code : ℕ → NeighbourOrder
order_from_code code =
    arm ((0, newest) ∷ (1, oldest) ∷ (2, strongest) ∷ (3, weakest) ∷ []) code (unknown code)

pub record NeighbourQuery : Type 0 where
  pub version : ℕ
  pub count : ℕ
  pub offset : ℕ
  pub order : NeighbourOrder
  pub prefix_length : ℕ
  pub nonce : ℕ

unfoldable pub new_query : ℕ → ℕ → NeighbourOrder → ℕ → ℕ → NeighbourQuery
new_query count offset order prefix_length nonce = record {
  version = 0;
  count = count;
  offset = offset;
  order = order;
  prefix_length = prefix_length;
  nonce = nonce;
}

-- What the functions of this file return.
abbrev pub Checked : Type 0 → Type 0
Checked A = Outcome RemotePayloadError A

abbrev pub is_unknown : NeighbourOrder → Bool
is_unknown (unknown value) = true
is_unknown order = false

unfoldable pub validate_neighbour_query : NeighbourQuery → Checked (Unit {0})
validate_neighbour_query query = do
  reject_if (not (query.version == 0)) (malformed "unsupported neighbour request version")
  reject_if (query.count == 0) (malformed "count must be greater than zero")
  reject_if (ltb query.prefix_length 1 || ltb 32 query.prefix_length)
      (malformed "prefix length must be between 1 and 32")
  reject_if (is_unknown query.order) (malformed "neighbour order must be between 0 and 3")
  reject_if (query.nonce == 0) (malformed "neighbour nonce must be non-zero")

unfoldable pub encode_query : NeighbourQuery → Checked (List ℕ)
unfolding validate_neighbour_query order_code u32_to_le
encode_query query = do
  validate_neighbour_query query
  ok (
      query.version
      ∷ query.count
      ∷ (query.offset % 256)
      ∷ (query.offset / 256 % 256)
      ∷ order_code query.order
      ∷ query.prefix_length
      ∷ u32_to_le query.nonce)

unfoldable pub acl_request_payload : List ℕ
acl_request_payload = 0 ∷ 0 ∷ []

unfoldable pub binary_request_payload : BinaryRequestKind → Option (List ℕ)
unfolding acl_request_payload
binary_request_payload acl = some acl_request_payload
binary_request_payload summary = none
binary_request_payload kind = some []

unfoldable pub summary_request_payload : ℕ → ℕ → List ℕ
unfolding u32_to_le
summary_request_payload start_secs_ago end_secs_ago =
    u32_to_le start_secs_ago ++ (u32_to_le end_secs_ago ++ (0 ∷ 0 ∷ []))

pub record RemoteFeature : Type 0 where
  pub kind : ℕ
  pub disabled : Bool

unfoldable pub from_feature_byte : ℕ → RemoteFeature
from_feature_byte raw = record { kind = raw % 128; disabled = leb 128 (raw % 256) }

unfoldable pub to_feature_byte : RemoteFeature → ℕ
to_feature_byte feature = bit_or feature.kind (if feature.disabled then 128 else 0)

pub record BasicResponse : Type 0 where
  pub clock : ℕ
  pub feature : RemoteFeature

pub record AclEntry : Type 0 where
  pub pubkey_prefix : List ℕ
  pub permissions : ℕ

pub record AclResponse : Type 0 where
  pub entries : List AclEntry

pub record NeighbourEntry : Type 0 where
  pub pubkey_prefix : List ℕ
  pub secs_ago : ℕ
  pub snr_db : ℤ

pub record NeighbourPage : Type 0 where
  pub total_count : ℕ
  pub result_count : ℕ
  pub entries : List NeighbourEntry

pub record RegionsResponse : Type 0 where
  pub clock : ℕ
  pub names : List Text

pub record OwnerResponse : Type 0 where
  pub clock : ℕ
  pub name : Text
  pub owner : Text
