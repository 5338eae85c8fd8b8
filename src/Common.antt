-- ===== src/Common.antt =====
-- The names that the other modules share: the libraries', passed on, and those of the children.
mod Tests
mod Lists
pub mod Search
mod Calls
pub mod Bytes
pub mod Utf8
pub mod Pieces
pub use Tests.*
pub use Lists.*
unfoldable pub use Search.{position, same_bytes, contains, split_on, split_once}
pub use Calls.*
pub use Bytes.{ℤ, pos, negsuc, IsByte, byte, u16_of, u32_of}
unfoldable pub use Bytes.{signed, pattern_of, u16_from_le, u32_from_le, u32_to_le}
unfoldable pub use Bytes.{at, slice, slice_from, read_u32, read_u16, read_i16, read_i8}
pub use Prim.Native.Nat.{ℕ, zero, suc, ◌+◌, ◌-◌, ◌*◌, ◌/◌, ◌%◌, ◌^◌, ◌≤◌, ◌<◌, min}
pub use Prim.Native.String.{String}
pub use mathlib.Core.Path.{◌≡◌, refl, sym, ap, ◌∙◌, subst}
pub use mathlib.Core.Logic.{◌≢◌, ◌↔◌, ◌⊎◌, inl, inr}
pub use mathlib.Core.Bool.{Bool, true, false, not, ◌&&◌, ◌||◌}
pub use mathlib.Core.Option.{Option, none, some}
pub use mathlib.Core.List.{List, [], ◌∷◌, ◌++◌, map, append_assoc, append-nil}
pub use native.Mathlib.Omega.{arith}
unfoldable pub use native.Mathlib.Decide.{dec_lt, dec_le, ℕ_discrete}
