-- ===== src/Common/Search.antt =====
-- Searching and splitting byte strings, as the slice and string methods of Rust do.
use Prim.Native.Nat.{zero, ℕ, suc}
use mathlib.Core.Bool.{Bool, true, false, ◌&&◌, ◌||◌}
use mathlib.Core.List.{List, [], ◌∷◌}
use mathlib.Core.Option
use mathlib.Core.Option.{Option, none, some}
use Prim.Native.Nat.{zero, ◌<◌}
use mathlib.Core.Path.{◌≡◌}
use native.Mathlib.Omega.{arith}
use meshquill.Common.Lists.{length}
use meshquill.Common.Tests.{◌==◌, if◌then◌else◌}

-- `iter().position(|value| value == &wanted)`
unfoldable pub position : ℕ → List ℕ → Option ℕ
position wanted [] = none
position wanted (x ∷ xs) = if x == wanted then some 0 else Option.map suc (position wanted xs)

pub position_bound :
    (wanted : ℕ) (xs : List ℕ) (k : ℕ) → position wanted xs ≡ some k → k < length xs
unfolding position
position_bound wanted [] k h = cc
position_bound wanted (x ∷ xs) zero h = omega arith
position_bound wanted (x ∷ xs) (suc k) h = ground (arith, position_bound wanted xs k)

-- Equality of byte strings, and `contains(&wanted)`.
unfoldable pub same_bytes : List ℕ → List ℕ → Bool
same_bytes [] [] = true
same_bytes [] (y ∷ ys) = false
same_bytes (x ∷ xs) [] = false
same_bytes (x ∷ xs) (y ∷ ys) = x == y && same_bytes xs ys

unfoldable pub contains : ℕ → List ℕ → Bool
contains wanted [] = false
contains wanted (x ∷ xs) = x == wanted || contains wanted xs

abbrev pub extend_head : ℕ → List (List ℕ) → List (List ℕ)
extend_head x [] = (x ∷ []) ∷ []
extend_head x (piece ∷ pieces) = (x ∷ piece) ∷ pieces

-- `split(separator)` and `split_once(separator)`
unfoldable pub split_on : ℕ → List ℕ → List (List ℕ)
split_on separator [] = [] ∷ []
split_on separator (x ∷ xs) =
    let rest = split_on separator xs in if x == separator then [] ∷ rest else extend_head x rest

unfoldable pub split_once : ℕ → List ℕ → Option (List ℕ × List ℕ)
split_once separator [] = none
split_once separator (x ∷ xs) =
    if x == separator
    then some ([], xs)
    else Option.map (λ p. (x ∷ p.0, p.1)) (split_once separator xs)
