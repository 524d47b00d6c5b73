-- ===== src/Ntp/Timestamp.antt =====
-- `ntp_timestamp_from_unix` of src/ntp/mod.rs: Unix time as a 64-bit NTP timestamp.
use Prim.Native.Nat.{bit_or}
use rust_gps_ntp.Common.{ℕ, ◌+◌, ◌-◌, ◌*◌, ◌/◌, ◌%◌, ◌^◌, ◌<◌, ◌≡◌, arith, min}
use rust_gps_ntp.Common.Bits.{bit_or-disjoint}
use rust_gps_ntp.Common.Int.{ℤ, pos, negsuc}
use rust_gps_ntp.Common.Words.{u64}

abbrev pub ntp_unix_epoch_offset_secs : ℕ
ntp_unix_epoch_offset_secs = 2_208_988_800

abbrev pub micros_per_sec : ℕ
micros_per_sec = 1_000_000

-- Saturating addition of `u64`.
abbrev saturating_add_u64 : ℕ → ℕ → ℕ
saturating_add_u64 a b = min (a + b) (2 ^ 64 - 1)

unfoldable pub ntp_seconds : ℤ → ℕ
ntp_seconds (pos n) = saturating_add_u64 n ntp_unix_epoch_offset_secs
ntp_seconds (negsuc n) = ntp_unix_epoch_offset_secs

unfoldable pub ntp_fraction : ℕ → ℕ
ntp_fraction rem_us = u64 (rem_us * 2 ^ 32 / 1_000_000)

-- The shift drops the seconds above 32 bits: the era that a timestamp does not carry.
unfoldable pub ntp_timestamp_from_unix : ℤ → ℕ → ℕ
unfolding ntp_seconds ntp_fraction
ntp_timestamp_from_unix unix_seconds rem_us =
    bit_or (u64 (ntp_seconds unix_seconds * 2 ^ 32)) (ntp_fraction rem_us)

-- The fields of a timestamp, and its fraction as whole microseconds, rounded up.
abbrev pub seconds_field : ℕ → ℕ
seconds_field ts = ts / 2 ^ 32

abbrev pub fraction_field : ℕ → ℕ
fraction_field ts = ts % 2 ^ 32

unfoldable pub fraction_micros : ℕ → ℕ
fraction_micros ts = (fraction_field ts * 1_000_000 + (2 ^ 32 - 1)) / 2 ^ 32

shifted : (s : ℕ) → u64 (s * 2 ^ 32) ≡ s % 2 ^ 32 * 2 ^ 32
shifted s = omega arith

pub ntp_timestamp-sum :
    (unix : ℤ) (rem_us : ℕ)
    → rem_us < 1_000_000
    → ntp_timestamp_from_unix unix rem_us
      ≡ ntp_seconds unix % 2 ^ 32 * 2 ^ 32 + rem_us * 2 ^ 32 / 1_000_000
unfolding ntp_timestamp_from_unix
ntp_timestamp-sum unix rem_us h =
    let plain : ntp_fraction rem_us ≡ rem_us * 2 ^ 32 / 1_000_000 = omega arith in
    rw (plain, shifted (ntp_seconds unix))
      (bit_or-disjoint 32 (ntp_seconds unix % 2 ^ 32) (rem_us * 2 ^ 32 / 1_000_000) (omega arith))

-- A timestamp of an instant from 1970 on has the seconds since 1900 modulo 2 ^ 32, and its fraction,
-- rounded up to whole microseconds, is the remainder that it was made from.
pub ntp_timestamp_round_trip :
    (n rem_us : ℕ)
    → n < 2 ^ 63
    → rem_us < 1_000_000
    → (seconds_field (ntp_timestamp_from_unix (pos n) rem_us)
        ≡ (n + ntp_unix_epoch_offset_secs) % 2 ^ 32)
      × (fraction_micros (ntp_timestamp_from_unix (pos n) rem_us) ≡ rem_us)
unfolding ntp_seconds fraction_micros
ntp_timestamp_round_trip n rem_us h k =
    rw (ntp_timestamp-sum (pos n) rem_us k) (omega arith, omega arith)

-- Any timestamp fits its 64 bits, and one made from a whole second has a zero fraction.
pub ntp_timestamp-whole :
    (unix : ℤ)
    → (ntp_timestamp_from_unix unix 0 < 2 ^ 64)
      × (fraction_field (ntp_timestamp_from_unix unix 0) ≡ 0)
ntp_timestamp-whole unix = rw (ntp_timestamp-sum unix 0 (omega arith)) (omega arith, omega arith)

pub ntp_timestamp-lt :
    (unix : ℤ) (rem_us : ℕ) → rem_us < 1_000_000 → ntp_timestamp_from_unix unix rem_us < 2 ^ 64
ntp_timestamp-lt unix rem_us h = rw (ntp_timestamp-sum unix rem_us h) (omega arith)
