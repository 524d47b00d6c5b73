-- ===== src/Ntp/Float.antt =====
-- The floating-point operations that the server uses, `f64` and `f32`, which the processor and the
-- standard library give. The model takes them as a parameter, without any law.
use rust_gps_ntp.Common.{ℕ, Bool, List}
use rust_gps_ntp.Common.Int.{ℤ}

pub record Floats : Type 1 where
  pub F64 : Type 0
  pub F32 : Type 0
  -- Casts: `as f64`, `as i64` and `as i8` of an `f64`; `as f32`, and an `f32` as an `f64`.
  pub of_int : ℤ → F64
  pub to_i64 : F64 → ℤ
  pub to_i8 : F64 → ℤ
  pub of_int32 : ℤ → F32
  pub widen : F32 → F64
  -- A decimal literal: a whole number over a power of ten.
  pub lit : ℤ → ℕ → F64
  pub lit32 : ℤ → ℕ → F32
  pub add : F64 → F64 → F64
  pub sub : F64 → F64 → F64
  pub mul : F64 → F64 → F64
  pub div : F64 → F64 → F64
  pub eq : F64 → F64 → Bool
  pub le : F64 → F64 → Bool
  pub max : F64 → F64 → F64
  pub abs : F64 → F64
  pub clamp : F64 → F64 → F64 → F64
  pub log2 : F64 → F64
  pub floor : F64 → F64
  pub add32 : F32 → F32 → F32
  pub mul32 : F32 → F32 → F32
  pub div32 : F32 → F32 → F32
  pub max32 : F32 → F32 → F32
  -- `round() as i64`.
  pub round_to_i64 : F32 → ℤ
  -- The format `{:.3}`.
  pub format3 : F64 → List ℕ
