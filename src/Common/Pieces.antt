-- ===== src/Common/Pieces.antt =====
-- What indexing, ranges and little-endian reads find in a byte string of which the rest from an
-- offset on is known.
use Prim.Native.Nat.{ℕ, zero, suc, ◌+◌, ◌-◌, ◌≤◌, ◌<◌, ◌^◌}
use mathlib.Core.Path.{◌≡◌, refl, ap, sym, ◌∙◌}
use mathlib.Core.List.{List, [], ◌∷◌, ◌++◌}
use native.Mathlib.Omega.{arith}
use meshquill.Common.Lists.{length, drop, take, length-drop, length-append, take-append}
use meshquill.Common.Calls.{ok}
use meshquill.Common.Bytes.{
  byte, at, slice, read_u32, at_lem, slice_lem, u32_to_le, u32_from_le-u32_to_le,
}

drop_nil : (k : ℕ) → [] ≡ drop {A = ℕ} k []
drop_nil zero = refl
drop_nil (suc k) = refl

pub drop_add : (a b : ℕ) (xs : List ℕ) → drop (a + b) xs ≡ drop b (drop a xs)
drop_add zero b xs = ap (λ (k : ℕ). drop k xs) {x = zero + b} {y = b} (omega arith)
drop_add (suc a) b [] =
    ap (λ (k : ℕ). drop k []) {x = suc a + b} {y = suc (a + b)} (omega arith) ∙ drop_nil b
drop_add (suc a) b (x ∷ xs) =
    ap (λ (k : ℕ). drop k (x ∷ xs)) {x = suc a + b} {y = suc (a + b)} (omega arith)
    ∙ drop_add a b xs

byte-drop :
    (raw : List ℕ) (i x : ℕ) (back : List ℕ)
    → drop i raw ≡ x ∷ back
    → (i < length raw) × (byte raw i ≡ x)
byte-drop [] zero x back h = cc
byte-drop [] (suc i) x back h = cc
byte-drop (y ∷ raw) zero x back h = (omega arith, cc)
byte-drop (y ∷ raw) (suc i) x back h = let (l, e) = byte-drop raw i x back h in (omega arith, e)

module _ {E : Type 0} where
  pub at-drop :
      (raw : List ℕ) (i x : ℕ) (back : List ℕ) → drop i raw ≡ x ∷ back → at {E = E} raw i ≡ ok x
  at-drop raw i x back h = let (l, e) = byte-drop raw i x back h in at_lem raw i l ∙ ap ok e

  pub slice-drop :
      (raw : List ℕ) (a b : ℕ) (mid back : List ℕ)
      → a ≤ length raw
      → drop a raw ≡ mid ++ back
      → b ≡ a + length mid
      → slice {E = E} raw a b ≡ ok mid
  slice-drop raw a b mid back h d k =
      let e : b - a ≡ length mid = omega arith in
      let l : length raw - a ≡ length mid + length back =
        sym (length-drop a raw) ∙ ap length d ∙ length-append mid back in
      slice_lem raw a b (omega arith) (omega arith)
      ∙ ap ok (ap (take (b - a)) d ∙ take-append (b - a) mid back e)

  pub read_u32-drop :
      (raw : List ℕ) (i n : ℕ) (back : List ℕ)
      → n < 2 ^ 32
      → drop i raw ≡ u32_to_le n ++ back
      → read_u32 {E = E} raw i ≡ ok n
  unfolding read_u32 u32_to_le
  read_u32-drop raw i n back h d =
      let bytes = λ (k : ℕ). drop_add i k raw ∙ ap (drop k) d in
      rw
        (
          at-drop raw i _ _ d,
          at-drop raw (i + 1) _ _ (bytes 1),
          at-drop raw (i + 2) _ _ (bytes 2),
          at-drop raw (i + 3) _ _ (bytes 3),
        )
        (ap ok (u32_from_le-u32_to_le n h))
