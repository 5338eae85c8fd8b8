-- ===== src/Platform.antt =====
-- What the core crate takes from outside its sources: 64-bit floats, and the crates `hex` and
-- `sha2`. A module that needs them takes a `Platform` as its parameter.
use meshquill.Common.{ℕ, Bool, List, ℤ}
use meshquill.Common.Utf8.{Text}

pub record Platform : Type 1 where
  -- `f64`, `f64::from(i32)`, `f64::from(u32)`, `/`, `*`, `<`, `is_finite`, and the saturating and
  -- truncating `as i32`. A literal that is a whole number is `of_i32` of it.
  pub F64 : Type 0
  pub of_i32 : ℤ → F64
  pub of_u32 : ℕ → F64
  pub div : F64 → F64 → F64
  pub mul : F64 → F64 → F64
  pub lt : F64 → F64 → Bool
  pub is_finite : F64 → Bool
  pub to_i32 : F64 → ℤ
  -- `hex::encode`
  pub hex_encode : List ℕ → Text
  -- `Sha256::digest`
  pub sha256 : List ℕ → List ℕ
