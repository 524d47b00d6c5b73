-- ===== src/Protection/Limiter.antt =====
-- `RateLimiter` of src/ntp/protection.rs: a fixed table of the clients accepted last.
pub mod Ideal
pub mod Eviction
pub mod Spacing
use rust_gps_ntp.Common.{
  ℕ, zero, suc, Bool, true, false, Option, none, some, List, [], ◌∷◌, set, replicate, ◌==◌,
  if◌then◌else◌,
}
use rust_gps_ntp.Common.Int.{ℤ, pos, ltb_ℤ}
use rust_gps_ntp.Common.Words.{saturating_sub, i64_max}

abbrev pub rate_table_size : ℕ
rate_table_size = 32

abbrev pub min_poll_interval_us : ℤ
min_poll_interval_us = pos 2_000_000

pub record ClientRecord : Type 0 where
  pub addr : ℕ
  pub last_us : ℤ

abbrev pub Table : Type 0
Table = List (Option ClientRecord)

unfoldable pub new_limiter : Table
new_limiter = replicate rate_table_size none

-- The request comes before the interval since the last accepted one is over.
unfoldable pub too_fast : ℤ → ℤ → Bool
unfolding saturating_sub
too_fast now_us last_us = ltb_ℤ (saturating_sub now_us last_us) min_poll_interval_us

abbrev pub skip : Option ClientRecord → Option (Bool × Table) → Option (Bool × Table)
skip e none = none
skip e (some (accepted, t)) = some (accepted, e ∷ t)

-- The loop over the occupied entries: the verdict and the table after it, or `none` where no entry
-- has the address.
unfoldable pub check_known : ℕ → ℤ → Table → Option (Bool × Table)
check_known addr now_us [] = none
check_known addr now_us (none ∷ t) = skip none (check_known addr now_us t)
check_known addr now_us (some r ∷ t) =
    if r.addr == addr
    then (if too_fast now_us r.last_us
        then some (false, some r ∷ t)
        else some (true, some (record r { last_us = now_us }) ∷ t))
    else skip (some r) (check_known addr now_us t)

abbrev pub suc_option : Option ℕ → Option ℕ
suc_option none = none
suc_option (some i) = some (suc i)

-- `position(|e| e.is_none())`.
unfoldable pub free_slot : Table → Option ℕ
free_slot [] = none
free_slot (none ∷ t) = some 0
free_slot (some r ∷ t) = suc_option (free_slot t)

abbrev pub slot_key : Option ClientRecord → ℤ
slot_key none = i64_max
slot_key (some r) = r.last_us

-- `min_by_key` keeps the first of equal keys.
unfoldable pub oldest_from : ℕ → ℕ → ℤ → Table → ℕ
oldest_from i best key [] = best
oldest_from i best key (e ∷ t) =
    oldest_from (suc i) (if ltb_ℤ (slot_key e) key then i else best)
      (if ltb_ℤ (slot_key e) key then slot_key e else key) t

unfoldable pub oldest_slot : Table → ℕ
unfolding oldest_from
oldest_slot [] = 0
oldest_slot (e ∷ t) = oldest_from 1 0 (slot_key e) t

unfoldable pub slot_for_new : Table → ℕ
slot_for_new t = elim (free_slot t) [ some i ↦ i | none ↦ oldest_slot t ]

-- `check`: whether the request is served, and the table after it.
unfoldable pub check : ℕ → ℤ → Table → Bool × Table
unfolding check_known too_fast slot_for_new free_slot oldest_slot
check addr now_us t = elim (check_known addr now_us t) [
  | some result ↦ result
  | none ↦ (true, set t (slot_for_new t) (some (record { addr = addr; last_us = now_us })))
]
