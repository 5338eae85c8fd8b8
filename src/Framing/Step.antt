-- ===== src/Framing/Step.antt =====
-- What one call of `decode` does, by the shape of the buffer.
use Prim.Native.Nat.{min}
use meshquill.Common.{
  position, zero, false, suc, ◌==◌, ◌∙◌, at, if◌then◌else◌, leb, ◌∷◌, drop-length, drop-append,
  length-append, ◌++◌, All, refl, ◌≢◌, [],
}
use meshquill.Common.{
  ℕ, ◌+◌, ◌≤◌, ◌<◌, ◌≡◌, none, some, List, length, take, drop, ok, err, u16_from_le, byte, arith,
}
use meshquill.Common.Bytes.{at_lem, slice_lem}
use meshquill.Error.{CoreError}
use meshquill.Framing.{decode_from, decode, device_frame_prefix, oversized, advance, decode_length}

pub advance_lem :
    {E : Type 0} (src : List ℕ) (n : ℕ) → n ≤ length src → advance {E = E} src n ≡ ok (drop n src)
unfolding advance
advance_lem src n h = ground arith

-- The length that a buffer declares behind its marker.
abbrev pub declared : List ℕ → ℕ
declared src = u16_from_le (byte src 1) (byte src 2)

pub decode_length-short : (src : List ℕ) → length src < 3 → decode_length src ≡ ok (none, src)
unfolding decode_length
decode_length-short src h = ground arith

pub decode_length-oversized :
    (src : List ℕ)
    → 3 ≤ length src
    → 300 < declared src
    → decode_length src
      ≡ err (oversized (declared src), drop (min (3 + declared src) (length src)) src)
unfolding decode_length
decode_length-oversized src h k = ground (
  arith,
  at_lem {E = CoreError × List ℕ} src 1,
  at_lem {E = CoreError × List ℕ} src 2,
  advance_lem {E = CoreError × List ℕ} src (3 + declared src),
  advance_lem {E = CoreError × List ℕ} src (length src),
)

pub decode_length-waits :
    (src : List ℕ)
    → 3 ≤ length src
    → declared src ≤ 300
    → length src < 3 + declared src
    → decode_length src ≡ ok (none, src)
unfolding decode_length
decode_length-waits src h k w =
    ground (arith, at_lem {E = CoreError × List ℕ} src 1, at_lem {E = CoreError × List ℕ} src 2)

pub decode_length-frame :
    (src : List ℕ)
    → declared src ≤ 300
    → 3 + declared src ≤ length src
    → decode_length src
      ≡ ok (
        some (record { payload = take (declared src) (drop 3 src) }),
        drop (3 + declared src) src,
      )
unfolding decode_length
decode_length-frame src k w = ground (
  arith,
  at_lem {E = CoreError × List ℕ} src 1,
  at_lem {E = CoreError × List ℕ} src 2,
  advance_lem {E = CoreError × List ℕ} src (3 + declared src),
  slice_lem {E = CoreError × List ℕ} src 3 (3 + declared src),
)

-- A call of `decode` starts at the first marker.
pub decode-marker :
    (t : List ℕ) → decode (device_frame_prefix ∷ t) ≡ decode_length (device_frame_prefix ∷ t)
unfolding decode position at
decode-marker t = ground arith

abbrev pub IsNoise : List ℕ → Type 0
IsNoise = All (λ b. b ≢ device_frame_prefix)

position-noise :
    (noise t : List ℕ)
    → IsNoise noise
    → position device_frame_prefix (noise ++ (device_frame_prefix ∷ t)) ≡ some (length noise)
unfolding position
position-noise [] t h = refl
position-noise (x ∷ xs) t h = ground (arith, position-noise xs t h.1)

-- The first byte is no marker if the marker is found further on.
marker_first :
    (x : ℕ) (xs : List ℕ) {k : ℕ}
    → position device_frame_prefix (x ∷ xs) ≡ some (suc k)
    → (x == device_frame_prefix) ≡ false
unfolding position
marker_first x xs h = ground arith

position-none : (noise : List ℕ) → IsNoise noise → position device_frame_prefix noise ≡ none
unfolding position
position-none [] h = refl
position-none (x ∷ xs) h = ground (arith, position-none xs h.1)

pub decode-no_marker :
    (src : List ℕ) → position device_frame_prefix src ≡ none → decode src ≡ ok (none, [])
unfolding decode decode_from at advance
decode-no_marker [] h = refl
decode-no_marker (x ∷ xs) h = ground (arith, drop-length (x ∷ xs), marker_none x xs)
  where
    marker_none :
        (x : ℕ) (xs : List ℕ)
        → position device_frame_prefix (x ∷ xs) ≡ none
        → (x == device_frame_prefix) ≡ false
    marker_none x xs h = unfold position in ground arith

pub decode-at_marker :
    (src : List ℕ) → position device_frame_prefix src ≡ some zero → decode src ≡ decode_length src
unfolding position
decode-at_marker [] h = cc
decode-at_marker (x ∷ xs) h =
    let e : x ≡ device_frame_prefix = ground arith in rw e (decode-marker xs)

-- Bytes that hold no marker are dropped.
pub decode-only_noise : (noise : List ℕ) → IsNoise noise → decode noise ≡ ok (none, [])
decode-only_noise noise h = decode-no_marker noise (position-none noise h)

-- The decoder goes on from the first marker.
pub decode-first_marker :
    (x : ℕ) (xs : List ℕ) (k : ℕ)
    → position device_frame_prefix (x ∷ xs) ≡ some (suc k)
    → suc k < length (x ∷ xs)
    → decode (x ∷ xs) ≡ decode_from (drop (suc k) (x ∷ xs)) (suc k)
unfolding decode at
decode-first_marker x xs k h l =
    ground (arith, marker_first x xs, advance_lem {E = CoreError × List ℕ} (x ∷ xs) (suc k))

pub decode_from_lem :
    (src : List ℕ) (k : ℕ)
    → decode_from src k ≡ (if leb (length src) k then ok (none, []) else decode_length src)
unfolding decode_from
decode_from_lem src k =
    ground (arith, advance_lem {E = CoreError × List ℕ} src (length src), drop-length src)

-- Noise in front of a marker is dropped; if it is as long as what follows, that is dropped too.
pub decode-noise :
    (x : ℕ) (noise t : List ℕ)
    → IsNoise (x ∷ noise)
    → decode ((x ∷ noise) ++ (device_frame_prefix ∷ t)) ≡ (
        if leb (length (device_frame_prefix ∷ t)) (length (x ∷ noise))
        then ok (none, [])
        else decode_length (device_frame_prefix ∷ t))
decode-noise x noise t h =
    decode-first_marker x (noise ++ (device_frame_prefix ∷ t)) (length noise)
      (position-noise (x ∷ noise) t h)
      (omega (arith, length-append noise (device_frame_prefix ∷ t)))
    ∙ decode_from_lem (drop (suc (length noise)) ((x ∷ noise) ++ (device_frame_prefix ∷ t)))
        (suc (length noise))
    ∙ rw (drop-append (suc (length noise)) (x ∷ noise) (device_frame_prefix ∷ t) refl)
