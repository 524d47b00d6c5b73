-- ===== src/Common/Bits.antt =====
-- Bit operations at variables: a search through all values below a bound, and `&` with a mask of
-- high bits.
use Prim.Native.Nat.{
  ℕ, zero, suc, ◌+◌, ◌-◌, ◌*◌, ◌/◌, ◌%◌, ◌^◌, ◌≤◌, ◌<◌, min, max, bit_and, bit_or, digits,
  bit_and-bitwise, bit_or-bitwise,
}
use mathlib.Core.Path.{◌≡◌, refl}
use mathlib.Core.Bool.{Bool, true, ◌&&◌}
use native.Mathlib.Omega.{arith}
use native.Mathlib.Nat.{
  pow-suc, pow-succ', div-add-mod', div-div-eq-div-mul, mod-lt, one-le-pow, mul-one, div-one,
}

-- The test holds of every number below the bound.
unfoldable pub check_below : ℕ → (ℕ → Bool) → Bool
check_below zero p = true
check_below (suc n) p = p n && check_below n p

pub check_below_sound : (n : ℕ) (p : ℕ → Bool) (x : ℕ) → check_below n p ≡ true → x < n → p x ≡ true
unfolding check_below
check_below_sound zero p x h lt = absurd (omega arith)
check_below_sound (suc n) p x h lt = ground (arith, check_below_sound n p x)

-- The law for the lowest digit. The native operation means a recursion on binary digits whose fuel
-- is its first argument; enough fuel is as good as any.
and_digits : ℕ → ℕ → ℕ → ℕ
and_digits = digits (λ b. zero) min

and_digits-fuel : (n m a b : ℕ) → a ≤ n → a ≤ m → and_digits n a b ≡ and_digits m a b
unfolding and_digits
and_digits-fuel zero zero a b h k = refl
and_digits-fuel zero (suc m) zero b h k = refl
and_digits-fuel zero (suc m) (suc a) b h k = absurd (omega arith)
and_digits-fuel (suc n) zero zero b h k = refl
and_digits-fuel (suc n) zero (suc a) b h k = absurd (omega arith)
and_digits-fuel (suc n) (suc m) zero b h k = refl
and_digits-fuel (suc n) (suc m) (suc a) b h k =
    rw (and_digits-fuel n m (suc a / 2) (b / 2) (omega arith) (omega arith))

bit_and-lowest : (a b : ℕ) → bit_and a b ≡ bit_and (a / 2) (b / 2) * 2 + min (a % 2) (b % 2)
unfolding and_digits
bit_and-lowest zero b = omega (arith, bit_and-bitwise 0 b, bit_and-bitwise 0 (b / 2))
bit_and-lowest (suc a) b = omega (
  arith,
  bit_and-bitwise (suc a) b,
  bit_and-bitwise (suc a / 2) (b / 2),
  and_digits-fuel a (suc a / 2) (suc a / 2) (b / 2) (omega arith) (omega arith),
)

le-zero : (a : ℕ) → a ≤ 0 → a ≡ 0
le-zero a h = omega arith

bit_and-zero_below : (n a : ℕ) → a ≤ n → bit_and a 0 ≡ 0
bit_and-zero_below zero a h = rw (le-zero a h)
bit_and-zero_below (suc n) a h =
    omega (arith, bit_and-lowest a 0, bit_and-zero_below n (a / 2) (omega arith))

double-pow : (q k : ℕ) → q * 2 ^ suc k ≡ q * 2 ^ k * 2
double-pow q k = rw (pow-suc 2 k) (omega arith)

-- `&` with `n` low ones keeps the `n` low bits.
bit_and-ones_of_parts : (n q r : ℕ) → r < 2 ^ n → bit_and (q * 2 ^ n + r) (2 ^ n - 1) ≡ r
bit_and-ones_of_parts zero q r h =
    omega (arith, bit_and-zero_below (q * 1 + r) (q * 1 + r) (omega arith))
bit_and-ones_of_parts (suc n) q r h = ground (
  arith,
  pow-suc 2 n,
  double-pow q n,
  bit_and-lowest (q * 2 ^ suc n + r) (2 ^ suc n - 1),
  bit_and-ones_of_parts n q (r / 2) (omega (arith, pow-suc 2 n)),
)

-- `&` with `n` low ones is the remainder by `2 ^ n`.
pub bit_and-ones : (n a : ℕ) → bit_and a (2 ^ n - 1) ≡ a % 2 ^ n
bit_and-ones n a =
    rw (div-add-mod' a (2 ^ n)) at
      (bit_and-ones_of_parts n (a / 2 ^ n) (a % 2 ^ n) (mod-lt a (one-le-pow n 2 (omega arith))))

-- `&` with a mask whose `k` low bits are zero drops the `k` low bits of the other side.
pub bit_and-scaled : (k a c : ℕ) → bit_and a (c * 2 ^ k) ≡ bit_and (a / 2 ^ k) c * 2 ^ k
bit_and-scaled zero a c = rw (mul-one c, div-one a, mul-one (bit_and a c))
bit_and-scaled (suc k) a c =
    let split : a / 2 ^ suc k ≡ a / 2 / 2 ^ k = rw (div-div-eq-div-mul, pow-succ') in
    ground (
      arith,
      split,
      double-pow c k,
      double-pow (bit_and (a / 2 / 2 ^ k) c) k,
      bit_and-lowest a (c * 2 ^ suc k),
      bit_and-scaled k (a / 2) c,
    )

or_digits : ℕ → ℕ → ℕ → ℕ
or_digits = digits (λ b. b) max

or_digits-fuel : (n m a b : ℕ) → a ≤ n → a ≤ m → or_digits n a b ≡ or_digits m a b
unfolding or_digits
or_digits-fuel zero zero a b h k = refl
or_digits-fuel zero (suc m) zero b h k = refl
or_digits-fuel zero (suc m) (suc a) b h k = absurd (omega arith)
or_digits-fuel (suc n) zero zero b h k = refl
or_digits-fuel (suc n) zero (suc a) b h k = absurd (omega arith)
or_digits-fuel (suc n) (suc m) zero b h k = refl
or_digits-fuel (suc n) (suc m) (suc a) b h k =
    rw (or_digits-fuel n m (suc a / 2) (b / 2) (omega arith) (omega arith))

bit_or-lowest : (a b : ℕ) → bit_or a b ≡ bit_or (a / 2) (b / 2) * 2 + max (a % 2) (b % 2)
unfolding or_digits
bit_or-lowest zero b = omega (arith, bit_or-bitwise 0 b, bit_or-bitwise 0 (b / 2))
bit_or-lowest (suc a) b = omega (
  arith,
  bit_or-bitwise (suc a) b,
  bit_or-bitwise (suc a / 2) (b / 2),
  or_digits-fuel a (suc a / 2) (suc a / 2) (b / 2) (omega arith) (omega arith),
)

bit_or-zero_below : (n a : ℕ) → a ≤ n → bit_or a 0 ≡ a
bit_or-zero_below zero a h = rw (le-zero a h)
bit_or-zero_below (suc n) a h =
    omega (arith, bit_or-lowest a 0, bit_or-zero_below n (a / 2) (omega arith))

-- `|` of a number of `n` bits into `n` zeros is a sum.
pub bit_or-disjoint : (n q r : ℕ) → r < 2 ^ n → bit_or (q * 2 ^ n) r ≡ q * 2 ^ n + r
bit_or-disjoint zero q r h = ground (arith, bit_or-zero_below (q * 1) (q * 1) (omega arith))
bit_or-disjoint (suc n) q r h = ground (
  arith,
  pow-suc 2 n,
  double-pow q n,
  bit_or-lowest (q * 2 ^ suc n) r,
  bit_or-disjoint n q (r / 2) (omega (arith, pow-suc 2 n)),
)
