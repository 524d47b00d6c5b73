-- ===== src/Pps.antt =====
-- The pulse monitor, src/pps.rs: the writer in the interrupt and the reader of the main loop share
-- a timestamp and a sequence counter.
pub mod Snapshot
pub mod Device
pub mod Events
use rust_gps_ntp.Common.{
  ℕ, zero, suc, ◌+◌, ◌-◌, ◌*◌, ◌/◌, ◌%◌, ◌^◌, Bool, true, false, Option, none, some, List, [], ◌∷◌,
  min, leb, ltb, ◌==◌, if◌then◌else◌,
}
use rust_gps_ntp.Common.Int.{ℤ, pos}
use rust_gps_ntp.Common.Words.{u32, u64, wrap_i64}

-- The two atomics.
pub record PpsMonitor : Type 0 where
  pub edge_us : ℕ
  pub seq : ℕ

unfoldable pub new : PpsMonitor
new = record { edge_us = 0; seq = 0 }

-- The three stores of `record_edge`, each of which other code may see.
abbrev pub bump : PpsMonitor → PpsMonitor
bump m = record m { seq = u32 (m.seq + 1) }

abbrev pub store_edge : ℕ → PpsMonitor → PpsMonitor
store_edge now_us m = record m { edge_us = now_us }

unfoldable pub record_edge : ℕ → PpsMonitor → PpsMonitor
record_edge now_us m = bump (store_edge now_us (bump m))

-- The last pulse that the main loop has seen.
pub record PpsPollState : Type 0 where
  pub last_count : ℕ
  pub last_edge_us : ℕ

pub data PpsEvent : Type 0 where
  first : ℤ → PpsEvent
  delta : ℕ → ℤ → PpsEvent

-- One turn of the reader's loop, over what the monitor holds at its three loads.
unfoldable pub snapshot_turn : PpsMonitor → PpsMonitor → PpsMonitor → Option (ℕ × ℕ)
snapshot_turn at_first at_edge at_last =
    if at_first.seq % 2 == 1
    then none
    else if at_first.seq == at_last.seq
    then some (at_first.seq / 2, at_edge.edge_us)
    else none

-- The loop, over the turns that the scheduler gives it.
unfoldable pub snapshot : List (PpsMonitor × PpsMonitor × PpsMonitor) → Option (ℕ × ℕ)
unfolding snapshot_turn
snapshot [] = none
snapshot ((a, b, c) ∷ turns) = elim (snapshot_turn a b c) [
  | some pair ↦ some pair
  | none ↦ snapshot turns
]

-- `wrapping_sub` of `u64`, cut to 32 bits.
unfoldable pub pps_delta_us : ℕ → ℕ → ℕ
pps_delta_us current_us previous_us = u32 (u64 (current_us + (2 ^ 64 - previous_us)))

-- `as i64` of a `u64`.
unfoldable pub i64_of_u64 : ℕ → ℤ
unfolding wrap_i64
i64_of_u64 n = wrap_i64 (pos n)

-- The rest of `poll`, from what the snapshot has given.
unfoldable pub poll : ℕ → ℕ → PpsPollState → Option PpsEvent × PpsPollState
unfolding pps_delta_us i64_of_u64
poll current_count now_us state =
    let edge_us = i64_of_u64 now_us in
    let event =
      (if ltb 0 state.last_edge_us
        then delta (pps_delta_us now_us state.last_edge_us) edge_us
        else first edge_us) in
    if leb current_count state.last_count
    then (none, state)
    else (some event, record { last_count = current_count; last_edge_us = now_us })
