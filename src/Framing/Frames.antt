-- ===== src/Framing/Frames.antt =====
-- Whole frames: what the decoder makes of a stream of device frames, of a frame that has arrived
-- in part, and of a frame behind noise; and what the encoder writes.
use meshquill.Framing.Step.{
  decode_length-waits, decode_length-oversized, decode_length-short, decode-marker, decode-noise,
  decode_length-frame, IsNoise,
}
use meshquill.Framing.{
  app_frame_prefix, oversized, InboundFrame, decode, decode_frames, decode_length, decode_loop,
  device_frame_prefix, encode_payload,
}
use meshquill.Common.{
  All, Bool-cases, List, [], append-nil, append_assoc, arith, drop, drop-append, err, if◌then◌else◌,
  inl, inr, leb, length, length-append, length-take, ltb, map, min, none, ok, refl, some, suc, take,
  take-append, u16_from_le, zero, ℕ, ◌%◌, ◌++◌, ◌+◌, ◌/◌, ◌<◌, ◌∙◌, ◌∷◌, ◌≡◌, ◌≤◌,
}

-- What a companion sends for one payload.
abbrev pub device_frame : List ℕ → List ℕ
device_frame p = device_frame_prefix ∷ (length p % 256) ∷ (length p / 256 % 256) ∷ p

abbrev pub frame_of : List ℕ → InboundFrame
frame_of p = record { payload = p }

length-device_frame : (p : List ℕ) → length (device_frame p) ≡ 3 + length p
length-device_frame p = omega arith

u16_from_le-length : (n : ℕ) → n < 65536 → u16_from_le (n % 256) (n / 256 % 256) ≡ n
unfolding u16_from_le
u16_from_le-length n h = omega arith

decode_length-device_frame :
    (p rest : List ℕ)
    → length p ≤ 300
    → decode_length (device_frame p ++ rest) ≡ ok (some (frame_of p), rest)
decode_length-device_frame p rest h =
    let e = u16_from_le-length (length p) (omega arith) in
    decode_length-frame (device_frame p ++ rest) (omega (arith, e))
      (omega (arith, e, length-append p rest))
    ∙ rw (
      e,
      take-append (length p) p rest refl,
      drop-append (3 + length p) (device_frame p) rest (omega arith),
    )

-- The decoder takes one whole frame from the front of the buffer and leaves what follows.
pub decode-device_frame :
    (p rest : List ℕ)
    → length p ≤ 300
    → decode (device_frame p ++ rest) ≡ ok (some (record { payload = p }), rest)
decode-device_frame p rest h =
    decode-marker ((length p % 256) ∷ (length p / 256 % 256) ∷ (p ++ rest))
    ∙ decode_length-device_frame p rest h

-- Behind noise without a marker, a frame of at most 300 bytes is found, and what follows it kept,
-- if more bytes follow the noise than it has; otherwise the frame and all that follows it are
-- lost.
pub decode-noise_frame :
    (x : ℕ) (noise p rest : List ℕ)
    → IsNoise (x ∷ noise)
    → length p ≤ 300
    → decode ((x ∷ noise) ++ (device_frame p ++ rest)) ≡ (
        if leb (length (device_frame p ++ rest)) (length (x ∷ noise))
        then ok (none, [])
        else ok (some (record { payload = p }), rest))
decode-noise_frame x noise p rest h l =
    decode-noise x noise ((length p % 256) ∷ (length p / 256 % 256) ∷ (p ++ rest)) h
    ∙ rw (decode_length-device_frame p rest l)

-- A proper front of a frame of at most 300 bytes stays in the buffer, and no frame is returned.
pub decode-partial :
    (p : List ℕ) (n : ℕ)
    → length p ≤ 300
    → n < 3 + length p
    → decode (take n (device_frame p)) ≡ ok (none, take n (device_frame p))
decode-partial p zero h l = unfold decode in refl
decode-partial p (suc zero) h l =
    decode-marker [] ∙ decode_length-short (device_frame_prefix ∷ []) (omega arith)
decode-partial p (suc (suc zero)) h l =
    decode-marker ((length p % 256) ∷ [])
    ∙ decode_length-short (device_frame_prefix ∷ (length p % 256) ∷ []) (omega arith)
decode-partial p (suc (suc (suc n))) h l =
    let e = u16_from_le-length (length p) (omega arith) in
    decode-marker ((length p % 256) ∷ (length p / 256 % 256) ∷ take n p)
    ∙ decode_length-waits
        (device_frame_prefix ∷ (length p % 256) ∷ (length p / 256 % 256) ∷ take n p) (omega arith)
        (omega (arith, e)) (omega (arith, e, length-take n p))

-- A frame that declares more than 300 bytes is an error that names the declared length, and the
-- decoder skips the frame, or the whole buffer if the frame has not arrived in full.
pub decode-oversized :
    (low high : ℕ) (rest : List ℕ)
    → 300 < u16_from_le low high
    → decode (device_frame_prefix ∷ low ∷ high ∷ rest)
      ≡ err (oversized (u16_from_le low high), drop (min (u16_from_le low high) (length rest)) rest)
decode-oversized low high rest h =
    decode-marker (low ∷ high ∷ rest)
    ∙ decode_length-oversized (device_frame_prefix ∷ low ∷ high ∷ rest) (omega arith) h
    ∙ rw three refl
  where
    three :
        min (3 + u16_from_le low high) (suc (suc (suc (length rest))))
        ≡ suc (suc (suc (min (u16_from_le low high) (length rest))))
    three = omega arith

abbrev pub stream : List (List ℕ) → List ℕ
stream [] = []
stream (p ∷ ps) = device_frame p ++ stream ps

decode_loop-stream :
    (ps : List (List ℕ)) (fuel : ℕ) (out : List InboundFrame)
    → All (λ p. length p ≤ 300) ps
    → length (stream ps) ≤ fuel
    → decode_loop fuel (stream ps) out ≡ some (ok (out ++ map frame_of ps))
unfolding decode_loop
decode_loop-stream [] fuel out h l = rw (append-nil out)
decode_loop-stream (p ∷ ps) zero out h l = absurd (omega arith)
decode_loop-stream (p ∷ ps) (suc fuel) out h l = rw (decode-device_frame p (stream ps) h.0) (
    decode_loop-stream ps fuel (out ++ (frame_of p ∷ [])) h.1
      (omega (arith, length-append p (stream ps)))
    ∙ rw (append_assoc out (frame_of p ∷ []) (map frame_of ps)))

-- A stream of device frames, each of at most 300 bytes, is decoded to its payloads in order.
pub decode_frames-stream :
    (ps : List (List ℕ))
    → All (λ p. length p ≤ 300) ps
    → decode_frames (stream ps) ≡ some (ok (map frame_of ps))
unfolding decode_frames
decode_frames-stream ps h = decode_loop-stream ps (length (stream ps)) [] h (omega arith)

-- A payload of at most 300 bytes is written behind the marker and its length; any other is refused
-- with its length.
pub encode_payload_lem :
    (p : List ℕ)
    → encode_payload p ≡ (
        if ltb 300 (length p)
        then err (oversized (length p))
        else ok (app_frame_prefix ∷ (length p % 256) ∷ (length p / 256 % 256) ∷ p))
unfolding encode_payload
encode_payload_lem p = ground arith

-- What `encode_payload` writes for a payload is read back by the decoder once the direction marker
-- is that of the device, and the bytes that follow stay in the buffer.
pub decode-encode_payload :
    (p out rest : List ℕ)
    → encode_payload p ≡ ok out
    → decode (device_frame_prefix ∷ (drop 1 out ++ rest)) ≡ ok (some (record { payload = p }), rest)
decode-encode_payload p out rest h = elim (Bool-cases (ltb 300 (length p))) [
  | inl big ↦ cc (encode_payload_lem p, big)
  | inr fits ↦ ground (arith, encode_payload_lem p, decode-device_frame p rest)
]
