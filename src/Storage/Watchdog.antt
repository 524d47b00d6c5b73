-- ===== src/Storage/Watchdog.antt =====
-- When the watchdog restarts the chip, src/storage.rs.
use rust_gps_ntp.Common.{
  ℕ, zero, suc, ◌+◌, ◌^◌, ◌<◌, ◌≤◌, max, ◌≡◌, ◌↔◌, true, if◌then◌else◌, ◌==◌, arith,
}
use rust_gps_ntp.Storage.{SdState, sd_boot, arm, disarm, monitor_turn, sd_call_timeout_us}

-- The states that calls reach as they begin and end, nested in any way: the number of calls that are
-- open, and the time at which the latest one began.
pub data Reach : ℕ → ℕ → SdState → Type 0 where
  boot : Reach 0 0 sd_boot
  enter :
      {d last : ℕ} {s : SdState} (label now : ℕ)
      → Reach d last s
      → d + 1 < 2 ^ 32
      → Reach (suc d) (max now 1) (arm label now s)
  leave : {d last : ℕ} {s : SdState} → Reach (suc d) last s → Reach d last (disarm s)

abbrev pub IsArmed : ℕ → ℕ → SdState → Type 0
IsArmed d last s =
    (s.call_depth ≡ d) × (d < 2 ^ 32) × (s.call_started_us ≡ (if d == 0 then 0 else last))

arm-IsArmed :
    (label now d last : ℕ) (s : SdState)
    → d + 1 < 2 ^ 32
    → IsArmed d last s
    → IsArmed (suc d) (max now 1) (arm label now s)
unfolding arm
arm-IsArmed label now d last s f h = ground (arith, h)

disarm-IsArmed : (d last : ℕ) (s : SdState) → IsArmed (suc d) last s → IsArmed d last (disarm s)
unfolding disarm
disarm-IsArmed d last s h = ground (arith, h)

Reach-IsArmed : {d last : ℕ} {s : SdState} → Reach d last s → IsArmed d last s
Reach-IsArmed boot = ground arith
Reach-IsArmed (enter {d = d} {last = last} {s = s} label now r f) =
    arm-IsArmed label now d last s f (Reach-IsArmed r)
Reach-IsArmed (leave {d = d} {last = last} {s = s} r) = disarm-IsArmed d last s (Reach-IsArmed r)

last-pos : {d last : ℕ} {s : SdState} → Reach d last s → 0 < d → 0 < last
last-pos boot h = absurd (omega arith)
last-pos (enter label now r f) h = omega arith
last-pos (leave r) h = last-pos r (omega arith)

-- However calls begin, nest and end, at any time the watchdog restarts the chip exactly if a call is
-- open and the latest one to begin did so at least three minutes ago, the instant of the boot
-- counting as the first microsecond after it. Once the outermost call has ended it never does.
pub monitor_turn_iff :
    {d last : ℕ} {s : SdState} (now : ℕ)
    → Reach d last s
    → (monitor_turn now s ≡ true) ↔ ((0 < d) × (last + sd_call_timeout_us ≤ now))
unfolding monitor_turn
monitor_turn_iff {d} {last} {s} now r = decide d last s now (Reach-IsArmed r) (last-pos r)
  where
    decide :
        (d last : ℕ) (s : SdState) (now : ℕ)
        → IsArmed d last s
        → (0 < d → 0 < last)
        → (monitor_turn now s ≡ true) ↔ ((0 < d) × (last + sd_call_timeout_us ≤ now))
    decide zero last s now h k = ground (arith, h)
    decide (suc d) last s now h k = let p : 0 < last = k (omega arith) in ground (arith, h, p)
