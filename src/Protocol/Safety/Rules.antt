-- ===== src/Protocol/Safety/Rules.antt =====
-- One rule for each piece of a parser: under which bounds it does not panic, and what its success
-- tells of the length of the packet.
use meshquill.Protocol.PacketCode.{PacketCode}
use meshquill.Domain.Values.{try_path, try_private_key, try_public_key, try_signature}
use meshquill.Protocol.Parse.Pieces.{
  then_read, Parsed, decode_padded_string, decode_text, require_exact_len, require_len,
}
use meshquill.Common.Bytes.{
  at_lem, read_i16_lem, read_i8_lem, read_u16_lem, read_u32_lem, slice_from_lem, slice_lem,
}
use meshquill.Common.{
  Bool, List, NoPanic, NoPanic-bind, NoPanic-ok, String, arith, at, false, length, no_panic, none,
  ok, read_i16, read_i8, read_u16, read_u32, refl, slice, slice_from, some, true, ℕ, ◌+◌, ◌<◌, ◌≡◌,
  ◌≤◌,
}

module _ {E : Type 0} (raw : List ℕ) where
  pub NoPanic-at : (i : ℕ) → i < length raw → NoPanic (at {E = E} raw i)
  NoPanic-at i h = record { ne = λ e. cc (at_lem {E = E} raw i h) }

  pub NoPanic-slice : (a b : ℕ) → a ≤ b → b ≤ length raw → NoPanic (slice {E = E} raw a b)
  NoPanic-slice a b h k = record { ne = λ e. cc (slice_lem {E = E} raw a b h k) }

  pub NoPanic-slice_from : (a : ℕ) → a ≤ length raw → NoPanic (slice_from {E = E} raw a)
  NoPanic-slice_from a h = record { ne = λ e. cc (slice_from_lem {E = E} raw a h) }

  pub NoPanic-read_u32 : (i : ℕ) → i + 4 ≤ length raw → NoPanic (read_u32 {E = E} raw i)
  NoPanic-read_u32 i h = record { ne = λ e. cc (read_u32_lem {E = E} raw i h) }

  pub NoPanic-read_u16 : (i : ℕ) → i + 2 ≤ length raw → NoPanic (read_u16 {E = E} raw i)
  NoPanic-read_u16 i h = record { ne = λ e. cc (read_u16_lem {E = E} raw i h) }

  pub NoPanic-read_i16 : (i : ℕ) → i + 2 ≤ length raw → NoPanic (read_i16 {E = E} raw i)
  NoPanic-read_i16 i h = record { ne = λ e. cc (read_i16_lem {E = E} raw i h) }

  pub NoPanic-read_i8 : (i : ℕ) → i < length raw → NoPanic (read_i8 {E = E} raw i)
  NoPanic-read_i8 i h = record { ne = λ e. cc (read_i8_lem {E = E} raw i h) }

pub NoPanic-then_read {ℓ} :
    {A : Type ℓ} (b : Bool) (m : Parsed A) → (b ≡ true → NoPanic m) → NoPanic (then_read b m)
NoPanic-then_read true m h = NoPanic-bind m (λ a. ok (some a)) (h refl) (λ a e. NoPanic-ok (some a))
NoPanic-then_read false m h = NoPanic-ok none

pub NoPanic-require_len : (raw : List ℕ) (n : ℕ) (c : PacketCode) → NoPanic (require_len raw n c)
unfolding require_len
NoPanic-require_len raw n c = record { ne = λ e. ground arith }

pub NoPanic-require_exact_len :
    (raw : List ℕ) (n : ℕ) (c : PacketCode) → NoPanic (require_exact_len raw n c)
unfolding require_exact_len
NoPanic-require_exact_len raw n c = record { ne = λ e. ground arith }

pub require_len-eq-ok :
    (raw : List ℕ) (n : ℕ) (c : PacketCode) {u : Unit {0}}
    → require_len raw n c ≡ ok u
    → n ≤ length raw
unfolding require_len
require_len-eq-ok raw n c h = ground arith

pub require_exact_len-eq-ok :
    (raw : List ℕ) (n : ℕ) (c : PacketCode) {u : Unit {0}}
    → require_exact_len raw n c ≡ ok u
    → n ≡ length raw
unfolding require_exact_len
require_exact_len-eq-ok raw n c h = ground arith

pub NoPanic-decode_text : (raw : List ℕ) (context : String) → NoPanic (decode_text raw context)
unfolding decode_text
NoPanic-decode_text raw context = record { ne = λ e. ground arith }

pub NoPanic-decode_padded_string :
    (raw : List ℕ) (context : String) → NoPanic (decode_padded_string raw context)
unfolding decode_padded_string
NoPanic-decode_padded_string raw context = record { ne = λ e. ground arith }

pub NoPanic-try_public_key : (bytes : List ℕ) → NoPanic (try_public_key bytes)
unfolding try_public_key
NoPanic-try_public_key bytes = record { ne = λ e. ground arith }

pub NoPanic-try_private_key : (bytes : List ℕ) → NoPanic (try_private_key bytes)
unfolding try_private_key
NoPanic-try_private_key bytes = record { ne = λ e. ground arith }

pub NoPanic-try_path : (bytes : List ℕ) → NoPanic (try_path bytes)
unfolding try_path
NoPanic-try_path bytes = record { ne = λ e. ground arith }

pub NoPanic-try_signature : (bytes : List ℕ) → NoPanic (try_signature bytes)
unfolding try_signature
NoPanic-try_signature bytes = record { ne = λ e. ground arith }

pub ruleset safe = (
  no_panic, NoPanic-at, NoPanic-slice, NoPanic-slice_from, NoPanic-read_u32, NoPanic-read_u16,
  NoPanic-read_i16, NoPanic-read_i8, NoPanic-then_read, NoPanic-require_len,
  NoPanic-require_exact_len, require_len-eq-ok, require_exact_len-eq-ok, NoPanic-decode_text,
  NoPanic-decode_padded_string, NoPanic-try_public_key, NoPanic-try_private_key, NoPanic-try_path,
  NoPanic-try_signature, arith,
)
