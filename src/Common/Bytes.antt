-- ===== src/Common/Bytes.antt =====
-- Byte slices as lists of numbers below 256, with Rust's checked indexing and ranges, and
-- little-endian integers. A signed integer is the value of its two's-complement bit pattern.
use Prim.Native.Nat.{ℕ, ◌+◌, ◌-◌, ◌*◌, ◌/◌, ◌%◌, ◌^◌, ◌≤◌, ◌<◌}
use mathlib.Core.Path.{◌≡◌, ap, ◌∙◌}
use mathlib.Core.Bool.{◌&&◌}
use mathlib.Core.List.{List, [], ◌∷◌, ◌++◌}
use native.Mathlib.Omega.{arith}
use meshquill.Common.Tests.{ltb, leb, if◌then◌else◌}
use meshquill.Common.Lists.{
  length-append, drop-append, take-append, length-take, length-drop, length, get_or, take, drop,
}
use meshquill.Common.Calls.{Outcome, ok, panic, ◌>>=◌}

abbrev pub IsByte : ℕ → Type 0
IsByte b = b < 256

-- `negsuc n` is -(n + 1).
pub data ℤ : Type 0 where
  pos : ℕ → ℤ
  negsuc : ℕ → ℤ

-- The signed value of a bit pattern of `w` bits.
unfoldable pub signed : ℕ → ℕ → ℤ
signed w n = if ltb n (2 ^ (w - 1)) then pos n else negsuc (2 ^ w - n - 1)

-- The bit pattern of a signed value in `w` bits.
unfoldable pub pattern_of : ℕ → ℤ → ℕ
pattern_of w (pos n) = n
pattern_of w (negsuc n) = 2 ^ w - n - 1

-- `u16::from_le_bytes` and `u32::from_le_bytes`.
unfoldable pub u16_from_le : ℕ → ℕ → ℕ
u16_from_le a b = a + 256 * b

unfoldable pub u32_from_le : ℕ → ℕ → ℕ → ℕ → ℕ
u32_from_le a b c d = a + 256 * b + 65536 * c + 16777216 * d

-- `u32::to_le_bytes`.
unfoldable pub u32_to_le : ℕ → List ℕ
u32_to_le n = n % 256 ∷ (n / 256 % 256) ∷ (n / 65536 % 256) ∷ (n / 16777216 % 256) ∷ []

pub u32_from_le-u32_to_le :
    (n : ℕ)
    → n < 2 ^ 32
    → u32_from_le (n % 256) (n / 256 % 256) (n / 65536 % 256) (n / 16777216 % 256) ≡ n
unfolding u32_from_le
u32_from_le-u32_to_le n h = omega arith

-- The byte at `i`, for an index that is known to be in bounds.
abbrev pub byte : List ℕ → ℕ → ℕ
byte raw i = get_or raw i 0

-- The four bytes at `i` as a little-endian number, and the two bytes.
abbrev pub u32_of : List ℕ → ℕ → ℕ
u32_of raw i = u32_from_le (byte raw i) (byte raw (i + 1)) (byte raw (i + 2)) (byte raw (i + 3))

abbrev pub u16_of : List ℕ → ℕ → ℕ
u16_of raw i = u16_from_le (byte raw i) (byte raw (i + 1))

module _ {E : Type 0} where
  -- `raw[i]`
  unfoldable pub at : List ℕ → ℕ → Outcome E ℕ
  at raw i = if ltb i (length raw) then ok (byte raw i) else panic

  -- `raw[a..b]`
  unfoldable pub slice : List ℕ → ℕ → ℕ → Outcome E (List ℕ)
  slice raw a b = if leb a b && leb b (length raw) then ok (take (b - a) (drop a raw)) else panic

  -- `raw[a..]`
  unfoldable pub slice_from : List ℕ → ℕ → Outcome E (List ℕ)
  slice_from raw a = if leb a (length raw) then ok (drop a raw) else panic

  pub at_lem : (raw : List ℕ) (i : ℕ) → i < length raw → at raw i ≡ ok (byte raw i)
  unfolding at
  at_lem raw i h = ground arith

  pub slice_lem :
      (raw : List ℕ) (a b : ℕ)
      → a ≤ b
      → b ≤ length raw
      → slice raw a b ≡ ok (take (b - a) (drop a raw))
  unfolding slice
  slice_lem raw a b h k = ground arith

  -- The middle of three pieces.
  pub slice-pieces :
      (front mid back : List ℕ) (a b : ℕ)
      → a ≡ length front
      → b ≡ a + length mid
      → slice (front ++ (mid ++ back)) a b ≡ ok mid
  slice-pieces front mid back a b h k =
      let e : b - a ≡ length mid = omega arith in
      slice_lem (front ++ (mid ++ back)) a b (omega arith)
        (omega (arith, length-append front (mid ++ back), length-append mid back))
      ∙ ap ok
          (ap (take (b - a)) (drop-append a front (mid ++ back) h) ∙ take-append (b - a) mid back e)

  pub length-slice :
      (raw : List ℕ) (a b : ℕ) {piece : List ℕ}
      → slice raw a b ≡ ok piece
      → (length piece ≡ b - a) × (a ≤ b) × (b ≤ length raw)
  unfolding slice
  length-slice raw a b h = ground (arith, length-take (b - a) (drop a raw), length-drop a raw)

  pub slice_from_lem : (raw : List ℕ) (a : ℕ) → a ≤ length raw → slice_from raw a ≡ ok (drop a raw)
  unfolding slice_from
  slice_from_lem raw a h = ground arith

  pub slice_from-eq-ok :
      (raw : List ℕ) (a : ℕ) {piece : List ℕ} → slice_from raw a ≡ ok piece → piece ≡ drop a raw
  unfolding slice_from
  slice_from-eq-ok raw a h = ground arith

  -- protocol.rs `read_u32`, `read_u16`, and `from_le_bytes` on consecutive indices.
  unfoldable pub read_u32 : List ℕ → ℕ → Outcome E ℕ
  read_u32 raw offset = do
    a ← at raw offset
    b ← at raw (offset + 1)
    c ← at raw (offset + 2)
    d ← at raw (offset + 3)
    ok (u32_from_le a b c d)

  unfoldable pub read_u16 : List ℕ → ℕ → Outcome E ℕ
  read_u16 raw offset = do a ← at raw offset; b ← at raw (offset + 1); ok (u16_from_le a b)

  unfoldable pub read_i16 : List ℕ → ℕ → Outcome E ℤ
  read_i16 raw offset = do n ← read_u16 raw offset; ok (signed 16 n)

  unfoldable pub read_i8 : List ℕ → ℕ → Outcome E ℤ
  read_i8 raw offset = do n ← at raw offset; ok (signed 8 n)

  pub read_u32_lem :
      (raw : List ℕ) (i : ℕ) → i + 4 ≤ length raw → read_u32 raw i ≡ ok (u32_of raw i)
  unfolding read_u32
  read_u32_lem raw i h =
      ground (arith, at_lem raw i, at_lem raw (i + 1), at_lem raw (i + 2), at_lem raw (i + 3))

  pub read_u16_lem :
      (raw : List ℕ) (i : ℕ) → i + 2 ≤ length raw → read_u16 raw i ≡ ok (u16_of raw i)
  unfolding read_u16
  read_u16_lem raw i h = ground (arith, at_lem raw i, at_lem raw (i + 1))

  pub read_i16_lem :
      (raw : List ℕ) (i : ℕ) → i + 2 ≤ length raw → read_i16 raw i ≡ ok (signed 16 (u16_of raw i))
  unfolding read_i16
  read_i16_lem raw i h = rw (read_u16_lem raw i h)

  pub read_i8_lem :
      (raw : List ℕ) (i : ℕ) → i < length raw → read_i8 raw i ≡ ok (signed 8 (byte raw i))
  unfolding read_i8
  read_i8_lem raw i h = rw (at_lem raw i h)
