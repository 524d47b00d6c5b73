-- ===== src/Common/Words.antt =====
-- Machine words as native numbers: unsigned wrap-around and saturation, and the wrapping and
-- saturating operations of `i64` over the integers.
use rust_gps_ntp.Common.Tests.{ltb, if◌then◌else◌}
use rust_gps_ntp.Common.Int.{ℤ, pos, negsuc, pos_part, neg_part, ◌+ℤ◌, ◌-ℤ◌, ◌*ℤ◌}
use Prim.Native.Nat.{ℕ, ◌+◌, ◌-◌, ◌%◌, ◌^◌, ◌≤◌, ◌<◌, min}
use mathlib.Core.Path.{◌≡◌}
use native.Mathlib.Omega.{arith}

abbrev pub u8 : ℕ → ℕ
u8 n = n % 2 ^ 8

abbrev pub u16 : ℕ → ℕ
u16 n = n % 2 ^ 16

abbrev pub u32 : ℕ → ℕ
u32 n = n % 2 ^ 32

abbrev pub u64 : ℕ → ℕ
u64 n = n % 2 ^ 64

abbrev pub i64_max : ℤ
i64_max = pos (2 ^ 63 - 1)

abbrev pub i64_min : ℤ
i64_min = negsuc (2 ^ 63 - 1)

-- The nearest `i64`.
unfoldable pub sat_i64 : ℤ → ℤ
sat_i64 (pos n) = if ltb n (2 ^ 63) then pos n else i64_max
sat_i64 (negsuc n) = if ltb n (2 ^ 63) then negsuc n else i64_min

-- The `i64` with the same low 64 bits: what `+` and `-` give where the checks are compiled out.
unfoldable pub wrap_i64 : ℤ → ℤ
wrap_i64 (pos n) =
    if ltb (n % 2 ^ 64) (2 ^ 63) then pos (n % 2 ^ 64) else negsuc (2 ^ 64 - 1 - n % 2 ^ 64)
wrap_i64 (negsuc n) =
    if ltb (n % 2 ^ 64) (2 ^ 63) then negsuc (n % 2 ^ 64) else pos (2 ^ 64 - 1 - n % 2 ^ 64)

abbrev pub IsI64 : ℤ → Type 0
IsI64 z = (pos_part z < 2 ^ 63) × (neg_part z ≤ 2 ^ 63)

unfoldable pub saturating_sub : ℤ → ℤ → ℤ
unfolding sat_i64 ◌-ℤ◌
saturating_sub a b = sat_i64 (a -ℤ b)

unfoldable pub saturating_add : ℤ → ℤ → ℤ
unfolding sat_i64 ◌+ℤ◌
saturating_add a b = sat_i64 (a +ℤ b)

pub sat_i64-IsI64 : (z : ℤ) → IsI64 (sat_i64 z)
unfolding sat_i64
sat_i64-IsI64 (pos n) = ground arith
sat_i64-IsI64 (negsuc n) = ground arith

pub wrap_i64-IsI64 : (z : ℤ) → IsI64 (wrap_i64 z)
unfolding wrap_i64
wrap_i64-IsI64 (pos n) = ground arith
wrap_i64-IsI64 (negsuc n) = ground arith

pub sat_i64_of_IsI64 : (z : ℤ) → IsI64 z → sat_i64 z ≡ z
unfolding sat_i64
sat_i64_of_IsI64 (pos n) h = ground arith
sat_i64_of_IsI64 (negsuc n) h = ground arith

pub wrap_i64_of_IsI64 : (z : ℤ) → IsI64 z → wrap_i64 z ≡ z
unfolding wrap_i64
wrap_i64_of_IsI64 (pos n) h = ground arith
wrap_i64_of_IsI64 (negsuc n) h = ground arith

-- Saturation, read by `omega`: the parts of the result are those of the operand, cut off.
pub sat_i64_parts :
    (z : ℤ)
    → (pos_part (sat_i64 z) ≡ min (pos_part z) (2 ^ 63 - 1))
      × (neg_part (sat_i64 z) ≡ min (neg_part z) (2 ^ 63))
unfolding sat_i64
sat_i64_parts (pos n) = ground arith
sat_i64_parts (negsuc n) = ground arith

-- A saturating counter of `u32`.
unfoldable pub saturating_inc : ℕ → ℕ
saturating_inc n = min (n + 1) (2 ^ 32 - 1)

unfoldable pub saturating_mul : ℤ → ℤ → ℤ
unfolding sat_i64 ◌*ℤ◌
saturating_mul a b = sat_i64 (a *ℤ b)

-- `as u64` of an `i64`.
abbrev pub u64_of_i64 : ℤ → ℕ
u64_of_i64 (pos n) = u64 n
u64_of_i64 (negsuc n) = 2 ^ 64 - 1 - n % 2 ^ 64
