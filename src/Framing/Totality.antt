-- ===== src/Framing/Totality.antt =====
-- The decoder on any buffer: it does not panic, a frame is a piece of the buffer, and the loop ends.
use meshquill.Common.Search.{position_bound}
use meshquill.Framing.Step.{
  decode-first_marker, decode-at_marker, decode-no_marker, decode_length-frame, decode_length-waits,
  decode_from_lem, decode_length-oversized, decode_length-short, declared,
}
use meshquill.Framing.{
  decode_frames, decode_loop, max_outer_payload, device_frame_prefix, position, decode, decode_from,
  CoreError, InboundFrame, Step, decode_length,
}
use meshquill.Common.{
  ap, sym, take-append-drop, ◌∙◌, All, All-append, Outcome, inl, inr, panic, ◌++◌, ◌∷◌, ◌≢◌, ◌⊎◌,
  Bool, Option, [], dec_lt, false, if◌then◌else◌, leb, refl, suc, true, zero, ◌≡◌, List, arith,
  drop, err, length, length-drop, length-take, min, none, ok, some, take, ℕ, ◌+◌, ◌<◌, ◌≤◌,
}

drop-nil : (n : ℕ) → drop {A = ℕ} n [] ≡ []
drop-nil zero = refl
drop-nil (suc n) = refl

drop-drop : (m n : ℕ) (xs : List ℕ) → drop n (drop m xs) ≡ drop (m + n) xs
drop-drop zero n xs = let same : n ≡ 0 + n = omega arith in ap (λ k. drop k xs) same
drop-drop (suc m) n [] = drop-nil n ∙ sym (drop-nil (suc m + n))
drop-drop (suc m) n (x ∷ xs) =
    let step : suc (m + n) ≡ suc m + n = omega arith in
    drop-drop m n xs ∙ ap (λ k. drop k (x ∷ xs)) step

-- A frame was taken from the buffer: somewhere in it stands a header of three bytes that declares the
-- length of the payload, at most 300, then comes the payload, and what is behind it is left.
abbrev pub Takes : List ℕ → InboundFrame → List ℕ → Type 0
Takes src frame rest =
    (length frame.payload ≤ 300)
    × ((skipped : ℕ) × (skipped + 3 + length frame.payload + length rest ≡ length src)
        × (declared (drop skipped src) ≡ length frame.payload)
        × (drop (skipped + 3) src ≡ frame.payload ++ rest))

-- How a step may come out, from a buffer.
pub data Outcomes (src : List ℕ) : Step → Type 0 where
  waits : (rest : List ℕ) → length rest ≤ length src → Outcomes src (ok (none, rest))
  frame : (f : InboundFrame) (rest : List ℕ) → Takes src f rest → Outcomes src (ok (some f, rest))
  fails : (e : CoreError) (rest : List ℕ) → length rest < length src → Outcomes src (err (e, rest))

decode_length-Outcomes : (src : List ℕ) → Outcomes src (decode_length src)
decode_length-Outcomes src = elim (dec_lt (length src) 3) [
  | yes short ↦ rw (decode_length-short src short) (waits src (omega arith))
  | no long ↦ elim (dec_lt 300 (declared src)) [
    | yes big ↦
        rw (decode_length-oversized src (omega arith) big)
          (fails _ _ (omega (arith, length-drop (min (3 + declared src) (length src)) src)))
    | no fits ↦ elim (dec_lt (length src) (3 + declared src)) [
      | yes part ↦
          rw (decode_length-waits src (omega arith) (omega arith) part) (waits src (omega arith))
      | no whole ↦
          rw (decode_length-frame src (omega arith) (omega arith))
            (frame _ _ (taken (omega arith) (omega arith)))
    ]
  ]
]
  where
    taken :
        declared src ≤ 300
        → 3 + declared src ≤ length src
        → Takes src
            (record { payload = take (declared src) (drop 3 src) })
            (drop (3 + declared src) src)
    taken h k =
        let size : length (take (declared src) (drop 3 src)) ≡ declared src =
          omega (arith, length-take (declared src) (drop 3 src), length-drop 3 src) in
        (
          omega (arith, size),
          (
            0,
            omega (arith, size, length-drop (3 + declared src) src),
            sym size,
            sym (take-append-drop (declared src) (drop 3 src))
                ∙ ap (λ l. take (declared src) (drop 3 src) ++ l) (drop-drop 3 (declared src) src),
          ),
        )

-- The same step, on a buffer with bytes in front.
widen :
    (n : ℕ) (whole : List ℕ) {step : Step}
    → n ≤ length whole
    → Outcomes (drop n whole) step
    → Outcomes whole step
widen n whole l (waits rest h) = waits rest (omega (arith, length-drop n whole))
widen n whole l (frame f rest (h, (k, total, size, bytes))) =
    let same : n + k + 3 ≡ n + (k + 3) = omega arith in
    frame f rest (
      h,
      (
        n + k,
        omega (arith, total, length-drop n whole),
        ap declared (sym (drop-drop n k whole)) ∙ size,
        ap (λ m. drop m whole) same ∙ sym (drop-drop n (k + 3) whole) ∙ bytes,
      ),
    )
widen n whole l (fails e rest h) = fails e rest (omega (arith, length-drop n whole))

decode_from-Outcomes :
    (n : ℕ) (whole : List ℕ) (k : ℕ)
    → n ≤ length whole
    → Outcomes whole (decode_from (drop n whole) k)
decode_from-Outcomes n whole k h =
    rw (decode_from_lem (drop n whole) k) (split (leb (length (drop n whole)) k))
  where
    split : (b : Bool) → Outcomes whole (if b then ok (none, []) else decode_length (drop n whole))
    split true = waits [] (omega arith)
    split false = widen n whole h (decode_length-Outcomes (drop n whole))

pub decode-Outcomes : (src : List ℕ) → Outcomes src (decode src)
decode-Outcomes [] = unfold decode in waits [] (omega arith)
decode-Outcomes (x ∷ xs) = go (position device_frame_prefix (x ∷ xs)) refl
  where
    go :
        (o : Option ℕ)
        → position device_frame_prefix (x ∷ xs) ≡ o
        → Outcomes (x ∷ xs) (decode (x ∷ xs))
    go none e = rw (decode-no_marker (x ∷ xs) e) (waits [] (omega arith))
    go (some zero) e = rw (decode-at_marker (x ∷ xs) e) (decode_length-Outcomes (x ∷ xs))
    go (some (suc k)) e =
        let inside = position_bound device_frame_prefix (x ∷ xs) (suc k) e in
        rw (decode-first_marker x xs k e inside)
          (decode_from-Outcomes (suc k) (x ∷ xs) (suc k) (omega (arith, inside)))

Outcomes-ne-panic : {src : List ℕ} {step : Step} → Outcomes src step → step ≢ panic
Outcomes-ne-panic (waits rest h) = λ e. cc
Outcomes-ne-panic (frame f rest h) = λ e. cc
Outcomes-ne-panic (fails e rest h) = λ e. cc

Outcomes-frame :
    {src : List ℕ} {step : Step} {f : InboundFrame} {rest : List ℕ}
    → Outcomes src step
    → step ≡ ok (some f, rest)
    → Takes src f rest
Outcomes-frame (waits rest h) e = cc
Outcomes-frame (frame f rest h) e = ground arith
Outcomes-frame (fails e rest h) e' = cc

-- No buffer makes the decoder panic.
pub decode-ne-panic : (src : List ℕ) → decode src ≢ panic
decode-ne-panic src = Outcomes-ne-panic (decode-Outcomes src)

-- A frame that the decoder returns is a piece of the buffer: behind some bytes that are skipped stands
-- a header of three bytes that declares the payload's length, then the payload, which has at most 300
-- bytes, and the rest is exactly what is behind it.
pub decode-Takes :
    (src : List ℕ) (f : InboundFrame) (rest : List ℕ)
    → decode src ≡ ok (some f, rest)
    → Takes src f rest
decode-Takes src f rest h = Outcomes-frame (decode-Outcomes src) h

abbrev pub InBounds : InboundFrame → Type 0
InBounds f = length f.payload ≤ max_outer_payload

Step-cases :
    (step : Step)
    → ((rest : List ℕ) × (step ≡ ok (none, rest)))
      ⊎ ((x : CoreError × List ℕ) × (step ≡ err x))
      ⊎ (step ≡ panic)
      ⊎ ((p : InboundFrame × List ℕ) × (step ≡ ok (some p.0, p.1)))
Step-cases (ok (none, rest)) = inl (rest, refl)
Step-cases (ok (some f, rest)) = inr (inr (inr ((f, rest), refl)))
Step-cases (err x) = inr (inl (x, refl))
Step-cases panic = inr (inr (inl refl))

-- A result of the loop that is no panic, and whose frames are in bounds.
abbrev pub Sound : Outcome CoreError (List InboundFrame) → Type 0
Sound (ok fs) = All InBounds fs
Sound (err e) = Unit
Sound panic = ⊥

decode_loop-Sound :
    (fuel : ℕ) (src : List ℕ) (out : List InboundFrame)
    → length src ≤ fuel
    → All InBounds out
    → (r : Outcome CoreError (List InboundFrame)) × (decode_loop fuel src out ≡ some r) × Sound r
unfolding decode_loop
decode_loop-Sound fuel [] out h o = (ok out, refl, o)
decode_loop-Sound zero (b ∷ bs) out h o = absurd (omega arith)
decode_loop-Sound (suc fuel) (b ∷ bs) out h o = elim (Step-cases (decode (b ∷ bs))) [
  | inl (rest, e) ↦ (ok out, rw e, o)
  | inr (inl (x, e)) ↦ (err x.0, rw e, tt)
  | inr (inr (inl e)) ↦ absurd (decode-ne-panic (b ∷ bs) e)
  | inr (inr (inr ((f, rest), e))) ↦
      let (short, (k, total, size, bytes)) = decode-Takes (b ∷ bs) f rest e in
      rw e (
        decode_loop-Sound fuel rest (out ++ (f ∷ [])) (omega (arith, total))
          (All-append InBounds out (f ∷ []) o (short, tt)))
]

-- `decode_frames` ends on every input, does not panic, and returns frames of at most 300 bytes.
pub decode_frames_total :
    (raw : List ℕ)
    → (r : Outcome CoreError (List InboundFrame)) × (decode_frames raw ≡ some r) × Sound r
unfolding decode_frames
decode_frames_total raw = decode_loop-Sound (length raw) raw [] (omega arith) tt
