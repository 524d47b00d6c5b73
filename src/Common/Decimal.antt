-- ===== src/Common/Decimal.antt =====
-- Decimal text of small numbers, as a list of character codes.
use Prim.Native.Nat.{ℕ, zero, suc, ◌+◌, ◌-◌, ◌/◌, ◌%◌, ◌^◌}
use rust_gps_ntp.Common.Int.{ℤ, pos, negsuc}
use mathlib.Core.List.{List, [], ◌∷◌, ◌++◌}
use rust_gps_ntp.Common.Tests.{ltb, if◌then◌else◌}

-- A `u8` in decimal, without leading zeros.
unfoldable pub print_u8 : ℕ → List ℕ
print_u8 n =
    if ltb n 10
    then (b'0' + n) ∷ []
    else if ltb n 100
    then (b'0' + n / 10) ∷ (b'0' + n % 10) ∷ []
    else (b'0' + n / 100) ∷ (b'0' + n / 10 % 10) ∷ (b'0' + n % 10) ∷ []

-- An `i8` in decimal.
unfoldable pub print_i8 : ℤ → List ℕ
unfolding print_u8
print_i8 (pos n) = print_u8 n
print_i8 (negsuc n) = b'-' ∷ print_u8 (n + 1)

-- A digit of `{:X}`.
abbrev pub hex_digit : ℕ → ℕ
hex_digit d = if ltb d 10 then b'0' + d else b'A' + (d - 10)

-- The lowest digits of a number in hexadecimal, the highest of them first.
abbrev pub print_hex : ℕ → ℕ → List ℕ
print_hex zero v = []
print_hex (suc n) v = hex_digit (v / 16 ^ n % 16) ∷ print_hex n v

-- The digits of a number in decimal, at most as many as the fuel.
abbrev pub print_digits : ℕ → ℕ → List ℕ
print_digits zero n = []
print_digits (suc fuel) n =
    let rest = print_digits fuel (n / 10) in
    if ltb n 10 then (b'0' + n) ∷ [] else rest ++ ((b'0' + n % 10) ∷ [])

-- A `u32` in decimal: ten digits are enough.
unfoldable pub print_u32 : ℕ → List ℕ
print_u32 n = print_digits 10 n
