-- ===== src/Framing.antt =====
-- crates/meshquill-core/src/framing.rs: the serial and TCP envelope round a companion packet, a
-- marker byte, a little-endian length and the payload. `decode` takes the receive buffer and gives
-- it back advanced, beside an error too. The proofs are in the modules below.
mod Step
pub mod Frames
pub mod Totality
mod Runs
use meshquill.Common.{
  position, ℕ, zero, suc, ◌+◌, ◌%◌, ◌/◌, Bool, true, false, ◌&&◌, Option, none, some, List, [], ◌∷◌,
  ◌++◌, ltb, leb, ◌==◌, if◌then◌else◌, length, drop, Outcome, ok, err, panic, ◌>>=◌, ◌>>◌,
  reject_if, at, slice, u16_from_le,
}
use meshquill.Error.{CoreError, ParseError, oversized_packet_payload}
use mathlib.Core.Option

abbrev pub max_outer_payload : ℕ
max_outer_payload = 300

abbrev pub app_frame_prefix : ℕ
app_frame_prefix = 0x3c

abbrev pub device_frame_prefix : ℕ
device_frame_prefix = 0x3e

abbrev pub length_size : ℕ
length_size = 2

pub record OutboundFrame : Type 0 where
  pub payload : List ℕ

pub record InboundFrame : Type 0 where
  pub payload : List ℕ

abbrev pub oversized : ℕ → CoreError
oversized actual = CoreError.parse (oversized_packet_payload actual max_outer_payload)

-- `OutboundFrame::new`
unfoldable pub new_outbound : List ℕ → Outcome CoreError OutboundFrame
new_outbound payload = do
  reject_if (ltb max_outer_payload (length payload)) (oversized (length payload))
  ok (record { payload = payload })

-- `OuterEncoder::encode`: what is appended to `dst`. `u16::try_from` refuses from 65536 on.
unfoldable pub encode : OutboundFrame → List ℕ → Outcome CoreError (List ℕ)
encode item dst = do
  reject_if (ltb 65535 (length item.payload)) (oversized (length item.payload))
  reject_if (ltb max_outer_payload (length item.payload)) (oversized (length item.payload))
  ok (
      dst
      ++ (app_frame_prefix
          ∷ (length item.payload % 256)
          ∷ (length item.payload / 256 % 256)
          ∷ item.payload))

unfoldable pub encode_payload : List ℕ → Outcome CoreError (List ℕ)
unfolding new_outbound encode
encode_payload payload = do frame ← new_outbound payload; encode frame []

abbrev pub find_device_prefix : List ℕ → Option ℕ
find_device_prefix src = position device_frame_prefix src

-- A step of the decoder: a frame or none, or an error, with the buffer that is left.
abbrev pub Step : Type 0
Step = Outcome (CoreError × List ℕ) (Option InboundFrame × List ℕ)

-- `BytesMut::advance` panics past the end.
unfoldable pub advance : {E : Type 0} → List ℕ → ℕ → Outcome E (List ℕ)
advance src n = if leb n (length src) then ok (drop n src) else panic

abbrev pub or_else : Option ℕ → ℕ → ℕ
or_else none d = d
or_else (some n) d = n

-- The part of `decode` for a declared length above the bound.
unfoldable pub skip_oversized : List ℕ → ℕ → Step
skip_oversized src declared_len = do
  let total = 1 + length_size + declared_len
  rest ← advance src (if leb total (length src) then total else length src)
  err (oversized declared_len, rest)

-- The part of `decode` for an allowed length.
unfoldable pub take_frame : List ℕ → ℕ → Step
take_frame src declared_len =
    let frame_total = 1 + length_size + declared_len in
    if ltb (length src) frame_total then ok (none, src) else (do
      payload ← slice src 3 frame_total
      rest ← advance src frame_total
      ok (some (record { payload = payload }), rest))

-- The part of `decode` that follows the length.
unfoldable pub decode_body : List ℕ → ℕ → Step
unfolding skip_oversized take_frame
decode_body src declared_len =
    if ltb max_outer_payload declared_len
    then skip_oversized src declared_len
    else take_frame src declared_len

-- The part of `decode` from the marker on.
unfoldable pub decode_length : List ℕ → Step
unfolding decode_body
decode_length src =
    if ltb (length src) (1 + length_size)
    then ok (none, src)
    else (do low ← at src 1; high ← at src 2; decode_body src (u16_from_le low high))

-- The part of `decode` after the advance to the marker. `prefix_pos` is compared with the length
-- that the advance has left.
unfoldable pub decode_from : List ℕ → ℕ → Step
unfolding decode_length
decode_from src prefix_pos =
    if leb (length src) prefix_pos
    then (do rest ← advance src (length src); ok (none, rest))
    else decode_length src

-- `OuterDecoder::decode`
unfoldable pub decode : List ℕ → Step
unfolding decode_from position
decode src = if length src == 0 then ok (none, src) else (do
  first ← at src 0
  let prefix_pos =
      if first == device_frame_prefix then 0 else or_else (find_device_prefix src) (length src)
  src' ←
      (if ltb 0 prefix_pos && ltb prefix_pos (length src) then advance src prefix_pos else ok src)
  decode_from src' prefix_pos)

-- What the loop of `decode_frames` does with a step, given the rest of the loop.
abbrev pub collect :
    Step
    → (InboundFrame → List ℕ → Option (Outcome CoreError (List InboundFrame)))
    → List InboundFrame
    → Option (Outcome CoreError (List InboundFrame))
collect (ok (none, src)) more out = some (ok out)
collect (ok (some frame, src)) more out = more frame src
collect (err (e, src)) more out = some (err e)
collect panic more out = some panic

-- The loop of `decode_frames`; `none` means that the fuel ran out.
unfoldable pub decode_loop :
    ℕ → List ℕ → List InboundFrame → Option (Outcome CoreError (List InboundFrame))
decode_loop fuel [] out = some (ok out)
decode_loop zero (b ∷ bs) out = none
decode_loop (suc fuel) (b ∷ bs) out =
    collect (decode (b ∷ bs)) (λ frame src. decode_loop fuel src (out ++ (frame ∷ []))) out

-- Each frame takes three bytes at least, so `length raw` rounds are enough.
unfoldable pub decode_frames : List ℕ → Option (Outcome CoreError (List InboundFrame))
unfolding decode_loop
decode_frames raw = decode_loop (length raw) raw []
