-- ===== src/Protection/Acl/Prefix.antt =====
-- One entry of the allowlist: the mask test is equality of the leading bits.
use Prim.Native.Nat.{bit_and}
use native.Mathlib.Nat.{one-le-pow, div-lt_iff_lt-mul, mod-eq_of_lt, mul-div_cancel}
use rust_gps_ntp.Common.{
  ℕ, ◌-◌, ◌*◌, ◌/◌, ◌%◌, ◌^◌, ◌≤◌, ◌<◌, ◌≡◌, refl, sym, ◌∙◌, ap, true, ◌↔◌, arith, ◌==◌, ==_iff,
}
use rust_gps_ntp.Common.Bits.{check_below, check_below_sound, bit_and-ones, bit_and-scaled}
use rust_gps_ntp.Protection.Acl.{entry_contains, prefix_mask}

-- The bits of an address that a prefix leaves free.
abbrev pub host_bits : ℕ → ℕ
host_bits prefix = 32 - prefix

masks_table : check_below 33 (λ p. prefix_mask p == (2 ^ p - 1) * 2 ^ host_bits p) ≡ true
unfolding check_below prefix_mask
masks_table = refl

prefix_mask_lem : (p : ℕ) → p ≤ 32 → prefix_mask p ≡ (2 ^ p - 1) * 2 ^ host_bits p
prefix_mask_lem p h = (==_iff _ _).0 (
    check_below_sound 33 (λ p. prefix_mask p == (2 ^ p - 1) * 2 ^ host_bits p) p masks_table
      (omega arith))

bit_and-prefix_mask :
    (p addr : ℕ)
    → p ≤ 32
    → bit_and addr (prefix_mask p) ≡ addr / 2 ^ host_bits p % 2 ^ p * 2 ^ host_bits p
bit_and-prefix_mask p addr h =
    rw (prefix_mask_lem p h, bit_and-scaled (host_bits p) addr (2 ^ p - 1), bit_and-ones p)

halves_table : check_below 33 (λ p. 2 ^ p * 2 ^ host_bits p == 2 ^ 32) ≡ true
unfolding check_below
halves_table = refl

halves : (p : ℕ) → p ≤ 32 → 2 ^ p * 2 ^ host_bits p ≡ 2 ^ 32
halves p h =
    (==_iff _ _).0
      (check_below_sound 33 (λ p. 2 ^ p * 2 ^ host_bits p == 2 ^ 32) p halves_table (omega arith))

-- Of a 32-bit address the mask leaves the bits of the prefix.
masked_address :
    (p addr : ℕ)
    → p ≤ 32
    → addr < 2 ^ 32
    → bit_and addr (prefix_mask p) ≡ addr / 2 ^ host_bits p * 2 ^ host_bits p
masked_address p addr h small =
    let below : addr < 2 ^ p * 2 ^ host_bits p = rw (halves p h) small in
    let fits = (div-lt_iff_lt-mul (one-le-pow (host_bits p) 2 (omega arith))).1 below in
    rw (bit_and-prefix_mask p addr h, mod-eq_of_lt fits)

cancel : (m : ℕ) → 0 < m → (a b : ℕ) → a * m ≡ b * m → a ≡ b
cancel m positive a b e =
    sym (mul-div_cancel a positive) ∙ ap (λ (t : ℕ). t / m) e ∙ mul-div_cancel b positive

abbrev pub InPrefix : ℕ → ℕ → ℕ → Type 0
InPrefix network p addr = addr / 2 ^ host_bits p ≡ network / 2 ^ host_bits p

-- An entry made from a prefix contains exactly the addresses with the same leading bits.
pub entry_contains_iff :
    (network p addr : ℕ)
    → network < 2 ^ 32
    → addr < 2 ^ 32
    → p ≤ 32
    → (entry_contains (record { network = network; mask = prefix_mask p }) addr ≡ true)
      ↔ InPrefix network p addr
unfolding entry_contains
entry_contains_iff network p addr hn ha hp =
    let positive : 0 < 2 ^ host_bits p = one-le-pow (host_bits p) 2 (omega arith) in
    rw (masked_address p addr hp ha, masked_address p network hp hn)
      (
        λ e. cancel (2 ^ host_bits p) positive _ _ ((==_iff _ _).0 e),
        λ e. (==_iff _ _).1 (ap (λ (t : ℕ). t * 2 ^ host_bits p) e),
      )
