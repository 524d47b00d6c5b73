-- ===== src/Tests/Devices.antt =====
-- The pins, the pulse monitor and the clock chip, src/pins.rs, src/pps.rs and src/rtc.rs.
use rust_gps_ntp.Common.{
  ℕ, zero, suc, true, false, ◌≡◌, ◌≤◌, ◌*◌, refl, some, List, [], ◌∷◌, arith, get_elem?,
}
use rust_gps_ntp.Common.Int.{pos}
use rust_gps_ntp.Pins.{PinPool, from_board_pins, take_gpio}
use rust_gps_ntp.Pins.Grants.{Call, take, give_back, grants, grants-once}
use rust_gps_ntp.Pps.{PpsPollState, snapshot_turn, new}
use rust_gps_ntp.Pps.Snapshot.{snapshot_turn-consistent}
use rust_gps_ntp.Rtc.{RtcDateTime}
use rust_gps_ntp.I2c.{I2cDriver}
use rust_gps_ntp.Rtc.Chip.{write_datetime}
use rust_gps_ntp.Rtc.Chip.Stopping.{recorded, Stops, write_datetime-Stops}

-- The calls of two modules that want the same pin, a name being a number.
abbrev calls : List (Call ℕ)
calls = take 12 1 ∷ take 12 2 ∷ give_back (pos 12) ∷ take 12 2 ∷ []

abbrev taken : PinPool ℕ
taken = (take_gpio 12 1 from_board_pins).1

grants-once_example : grants 12 calls from_board_pins ≤ 1
grants-once_example = grants-once 12 calls from_board_pins

-- The reader loads between the second and the third pulse.
abbrev edges : List ℕ
edges = 1_000 ∷ 2_000 ∷ 3_000 ∷ []

snapshot_turn-consistent_example : (6 ≡ 3 * 2) × (get_elem? (0 ∷ edges) 2 ≡ some 2_000)
unfolding snapshot_turn new
snapshot_turn-consistent_example =
    snapshot_turn-consistent edges 6 6 6 2 2_000 (omega arith) (omega arith) (omega arith)
      (omega arith) refl

abbrev instant : RtcDateTime
instant = record { year = 2026; month = 2; day = 28; hour = 23; minute = 59; second = 58 }

-- One pulse has been seen, at one second.
abbrev seen : PpsPollState
seen = record { last_count = 1; last_edge_us = 1_000_000 }

-- A bus on which the first writes succeed, as many as its state says, and a clock that runs.
abbrev failing_bus : I2cDriver ℕ
failing_bus = record {
  write = λ addr bytes timeout n. elim n [ zero ↦ (false, zero) | suc m ↦ (true, m) ];
  write_read = λ addr bytes len timeout n. (some (8 ∷ []), n);
}

-- The last of the three writes fails.
write_datetime-Stops_example :
    let r = write_datetime (recorded failing_bus) instant (2, []) in Stops instant r.0 r.1.1
write_datetime-Stops_example = write_datetime-Stops failing_bus instant 2 refl (omega arith)
