-- ===== src/Common/Utf8.antt =====
-- UTF-8 as Rust's `String::from_utf8` checks it. A Rust string is the list of its bytes.
use Prim.Native.Char.{code}
use Prim.Native.String.{String}
use Prim.Native.Nat.{ℕ}
use mathlib.Core.Path.{◌≡◌}
use mathlib.Core.Bool.{Bool, true, false, ◌&&◌}
use mathlib.Core.List.{List, [], ◌∷◌}
use mathlib.Core.Option.{Option, none, some}
use native.Mathlib.Omega.{arith}
use meshquill.Common.Tests.{ltb, leb, ◌==◌, if◌then◌else◌}

abbrev pub Text : Type 0
Text = List ℕ

-- The bytes of an ASCII literal.
abbrev pub ascii : String → Text
ascii String.[] = []
ascii (String.◌∷◌ c s) = code c ∷ ascii s

-- The ranges in which the bytes after a lead byte must lie.
abbrev pub Ranges : Type 0
Ranges = List (ℕ × ℕ)

abbrev continuation : Ranges → Ranges
continuation rs = (0x80, 0xbf) ∷ rs

-- `none` for a byte that starts no character.
unfoldable pub lead_byte : ℕ → Option Ranges
lead_byte b =
    if ltb b 0x80
    then some []
    else if ltb b 0xc2
    then none
    else if leb b 0xdf
    then some (continuation [])
    else if b == 0xe0
    then some ((0xa0, 0xbf) ∷ continuation [])
    else if b == 0xed
    then some ((0x80, 0x9f) ∷ continuation [])
    else if leb b 0xef
    then some (continuation (continuation []))
    else if b == 0xf0
    then some ((0x90, 0xbf) ∷ continuation (continuation []))
    else if leb b 0xf3
    then some (continuation (continuation (continuation [])))
    else if b == 0xf4
    then some ((0x80, 0x8f) ∷ continuation (continuation []))
    else none

-- The ranges are those that the current character still waits for.
unfoldable pub scan_utf8 : Ranges → List ℕ → Bool
unfolding lead_byte
scan_utf8 [] [] = true
scan_utf8 (r ∷ rs) [] = false
scan_utf8 [] (b ∷ bs) = elim (lead_byte b) [ none ↦ false | some rs ↦ scan_utf8 rs bs ]
scan_utf8 ((lo, hi) ∷ rs) (b ∷ bs) = leb lo b && leb b hi && scan_utf8 rs bs

unfoldable pub from_utf8 : List ℕ → Option Text
unfolding scan_utf8
from_utf8 bytes = if scan_utf8 [] bytes then some bytes else none

abbrev pub IsUtf8 : List ℕ → Type 0
IsUtf8 bytes = scan_utf8 [] bytes ≡ true

pub from_utf8_lem : (bytes : List ℕ) → IsUtf8 bytes → from_utf8 bytes ≡ some bytes
unfolding from_utf8
from_utf8_lem bytes h = ground arith

-- A decoded string is the bytes it was decoded from.
pub from_utf8-eq_some :
    (bytes : List ℕ) (t : Text) → from_utf8 bytes ≡ some t → (t ≡ bytes) × IsUtf8 bytes
unfolding from_utf8
from_utf8-eq_some bytes t h = ground arith
