-- ===== src/Framing/Runs.antt =====
-- Concrete runs of the decoder and the encoder, and the theorems at concrete inputs.
use meshquill.Framing.Step.{IsNoise}
use meshquill.Framing.Totality.{Takes, decode_frames_total, Sound, decode-Takes}
use meshquill.Error.{CoreError}
use meshquill.Framing.{InboundFrame, advance, oversized, decode, decode_frames, encode_payload}
use meshquill.Common.{
  List, Outcome, [], arith, at, err, map, none, ok, refl, replicate, slice, some, take, u16_from_le,
  ℕ, ◌++◌, ◌∷◌, ◌≡◌,
}
use meshquill.Framing.Frames.{
  decode-noise_frame, decode-oversized, decode-partial, decode_frames-stream, decode-encode_payload,
  device_frame, stream, frame_of,
}

abbrev two_bytes : List ℕ
two_bytes = 0xaa ∷ 0xbb ∷ []

abbrev two_payloads : List (List ℕ)
two_payloads = (1 ∷ 2 ∷ []) ∷ (0x3e ∷ []) ∷ []

decode_two :
    decode_frames (stream two_payloads)
    ≡ some (ok (frame_of (1 ∷ 2 ∷ []) ∷ frame_of (0x3e ∷ []) ∷ []))
unfolding decode_frames decode at slice advance u16_from_le
decode_two = refl

-- Ten bytes of noise in front of a complete frame of five bytes: the frame is lost.
lost_frame : decode (replicate 10 0 ++ (0x3e ∷ 2 ∷ 0 ∷ 0xaa ∷ 0xbb ∷ [])) ≡ ok (none, [])
unfolding decode at advance
lost_frame = refl

-- Four bytes of noise in front of the same frame: the frame is found.
found_frame :
    decode (replicate 4 0 ++ (0x3e ∷ 2 ∷ 0 ∷ 0xaa ∷ 0xbb ∷ []))
    ≡ ok (some (frame_of (0xaa ∷ 0xbb ∷ [])), [])
unfolding decode at advance slice u16_from_le
found_frame = refl

encode_two : encode_payload (1 ∷ 2 ∷ []) ≡ ok (0x3c ∷ 2 ∷ 0 ∷ 1 ∷ 2 ∷ [])
unfolding encode_payload
encode_two = refl

decode_frames-stream_example :
    decode_frames (stream two_payloads) ≡ some (ok (map frame_of two_payloads))
decode_frames-stream_example = decode_frames-stream two_payloads (omega arith)

decode_frames_total_example :
    (r : Outcome CoreError (List InboundFrame)) × (decode_frames (0 ∷ 0x3e ∷ 1 ∷ []) ≡ some r)
    × Sound r
decode_frames_total_example = decode_frames_total (0 ∷ 0x3e ∷ 1 ∷ [])

decode-noise_frame_example :
    decode ((0 ∷ replicate 9 0) ++ (device_frame (0xaa ∷ 0xbb ∷ []) ++ [])) ≡ ok (none, [])
decode-noise_frame_example =
    decode-noise_frame 0 (replicate 9 0) (0xaa ∷ 0xbb ∷ []) [] noise (omega arith)
  where
    noise : IsNoise (0 ∷ replicate 9 0)
    noise = omega arith

decode-partial_example :
    decode (take 4 (device_frame (1 ∷ 2 ∷ []))) ≡ ok (none, take 4 (device_frame (1 ∷ 2 ∷ [])))
decode-partial_example = decode-partial (1 ∷ 2 ∷ []) 4 (omega arith) (omega arith)

decode-oversized_example : decode (0x3e ∷ 0x2d ∷ 1 ∷ 7 ∷ 8 ∷ []) ≡ err (oversized 301, [])
unfolding u16_from_le
decode-oversized_example = decode-oversized 0x2d 1 (7 ∷ 8 ∷ []) (omega arith)

decode-Takes_example : Takes (replicate 4 0 ++ device_frame two_bytes) (frame_of two_bytes) []
decode-Takes_example =
    decode-Takes (replicate 4 0 ++ device_frame two_bytes) (frame_of two_bytes) [] found_frame

decode-encode_payload_example :
    decode (0x3e ∷ (2 ∷ 0 ∷ 1 ∷ 2 ∷ []) ++ (9 ∷ [])) ≡ ok (some (frame_of (1 ∷ 2 ∷ [])), 9 ∷ [])
decode-encode_payload_example =
    decode-encode_payload (1 ∷ 2 ∷ []) (0x3c ∷ 2 ∷ 0 ∷ 1 ∷ 2 ∷ []) (9 ∷ []) encode_two
