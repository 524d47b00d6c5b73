-- ===== src/Tests/Limiter.antt =====
-- The rate limiter of src/ntp/protection.rs on small tables.
use rust_gps_ntp.Common.{◌≡◌, refl, true, false, none, some, [], ◌∷◌, arith}
use rust_gps_ntp.Common.Int.{pos}
use rust_gps_ntp.Protection.Limiter.{Table, new_limiter, check, free_slot}
use rust_gps_ntp.Protection.Limiter.Eviction.{EvictsOldest, check-EvictsOldest}
use rust_gps_ntp.Protection.Limiter.Ideal.{last_seen}
use rust_gps_ntp.Protection.Limiter.Spacing.{
  Requests, Spaced, accepted_times, check_all, ideal_all, contains, check_all_ideal,
  check_all-Spaced,
}

-- The second request of client 1 comes too soon, the third does not.
abbrev requests : Requests
requests = (1, pos 0) ∷ (1, pos 1_000_000) ∷ (2, pos 1_500_000) ∷ (1, pos 3_000_000) ∷ []

abbrev pair : Table
pair =
    some (record { addr = 7; last_us = pos 10 }) ∷ some (record { addr = 8; last_us = pos 5 }) ∷ []

abbrev roomy : Table
roomy = some (record { addr = 7; last_us = pos 10 }) ∷ none ∷ []

verdicts : check_all requests new_limiter ≡ true ∷ false ∷ true ∷ true ∷ []
unfolding check_all check new_limiter
verdicts = refl

check_all-Spaced_example : Spaced none (accepted_times 1 requests (check_all requests new_limiter))
unfolding contains
check_all-Spaced_example =
    check_all-Spaced (1 ∷ 2 ∷ []) requests 1 (omega arith) (refl, (refl, (refl, (refl, tt))))

check_all_ideal_example : check_all requests new_limiter ≡ ideal_all requests (λ q. none)
unfolding contains
check_all_ideal_example =
    check_all_ideal (1 ∷ 2 ∷ []) requests (omega arith) (refl, (refl, (refl, (refl, tt))))

check-EvictsOldest_example : EvictsOldest 9 (pos 20) pair
unfolding free_slot last_seen
check-EvictsOldest_example = check-EvictsOldest 9 (pos 20) pair (λ e. cc) refl refl
