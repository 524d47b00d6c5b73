-- ===== src/Pps/Events.antt =====
-- The events that a poll of the monitor gives, src/pps.rs.
use rust_gps_ntp.Common.{
  ℕ, ◌+◌, ◌-◌, ◌^◌, ◌≤◌, ◌<◌, ◌≡◌, refl, true, false, none, some, leb, ltb, if◌then◌else◌, arith,
}
use rust_gps_ntp.Common.Int.{pos}
use rust_gps_ntp.Common.Words.{wrap_i64}
use rust_gps_ntp.Pps.{PpsPollState, first, delta, pps_delta_us, i64_of_u64, poll}

-- The interval is exact for edges that are in order and less than 2^32 microseconds apart.
delta-exact :
    (now last : ℕ)
    → last ≤ now
    → now < last + 2 ^ 32
    → now < 2 ^ 64
    → pps_delta_us now last ≡ now - last
unfolding pps_delta_us
delta-exact now last low high fits = omega arith

signed : (n : ℕ) → n < 2 ^ 63 → i64_of_u64 n ≡ pos n
unfolding i64_of_u64 wrap_i64
signed n h = ground arith

-- A poll that sees more pulses than the one before reports exactly one event, with the time since
-- the last edge it has seen, if there was one, for edges that are in order and less than 2^32
-- microseconds apart; the same pulse is not reported again.
pub poll-once :
    (count now : ℕ) (s : PpsPollState)
    → s.last_count < count
    → s.last_edge_us ≤ now
    → now < s.last_edge_us + 2 ^ 32
    → now < 2 ^ 63
    → ((poll count now s).0
        ≡ some (
            if ltb 0 s.last_edge_us
            then delta (now - s.last_edge_us) (pos now)
            else first (pos now)))
      × ((poll count now (poll count now s).1).0 ≡ none)
unfolding poll
poll-once count now s more low high fits =
    let new_pulse : leb count s.last_count ≡ false = ground arith in
    let again : leb count count ≡ true = ground arith in
    let interval = delta-exact now s.last_edge_us low high (omega arith) in
    rw (new_pulse, interval, signed now fits) (refl, rw again refl)
