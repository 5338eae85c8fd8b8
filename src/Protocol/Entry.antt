-- ===== src/Protocol/Entry.antt =====
-- The two tests in front of the parsers.
use meshquill.Common.{◌≤◌, List, [], arith, at, err, if◌then◌else◌, length, ltb, refl, ℕ, ◌∷◌, ◌≡◌}
use meshquill.Protocol.Parse.{max_inner_payload, dispatch, parse}
use meshquill.Error.{malformed, oversized_packet_payload}
use meshquill.Platform.{Platform}
use meshquill.Protocol.PacketCode.{from_u8}

module _ (p : Platform) where
  pub parse-empty : parse p [] ≡ err (malformed "empty packet")
  unfolding parse
  parse-empty = refl

  -- A packet of more than 176 bytes is refused with its length; any other goes to the parser of
  -- its first byte.
  pub parse_lem :
      (b : ℕ) (bs : List ℕ)
      → parse p (b ∷ bs) ≡ (
          if ltb max_inner_payload (length (b ∷ bs))
          then err (oversized_packet_payload (length (b ∷ bs)) max_inner_payload)
          else dispatch p (from_u8 b) (b ∷ bs) b)
  unfolding parse at
  parse_lem b bs = ground arith

  pub parse-fits :
      (b : ℕ) (bs : List ℕ) → length bs ≤ 175 → parse p (b ∷ bs) ≡ dispatch p (from_u8 b) (b ∷ bs) b
  parse-fits b bs h = ground (arith, parse_lem b bs)
