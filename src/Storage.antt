-- ===== src/Storage.antt =====
-- The card's worker and its watchdog, src/storage.rs. The calls of the file system, of the mount and
-- of the tasks are arguments: what they answer. Times are microseconds since boot, never negative.
pub mod Watchdog
pub mod Jobs
pub mod Mount
use rust_gps_ntp.Common.{
  ℕ, ◌+◌, ◌-◌, ◌*◌, ◌^◌, max, min, Bool, true, false, Option, none, some, List, [], ◌∷◌, ◌&&◌, not,
  leb, ◌==◌, if◌then◌else◌,
}
use rust_gps_ntp.Common.Int.{ℤ, pos}
use rust_gps_ntp.Common.Words.{u32}
use rust_gps_ntp.Pins.{PinPool, Claimed, ok, err, take_gpio10, take_gpio33, release_pin}

abbrev pub sd_call_timeout_us : ℕ
sd_call_timeout_us = 180_000_000

abbrev pub adalogger_sd_cs_pin : ℕ
adalogger_sd_cs_pin = 10

abbrev pub adalogger_sd_cs_alt_pin : ℕ
adalogger_sd_cs_alt_pin = 33

pub record StorageStatus : Type 0 where
  pub mounted : Bool
  pub total_bytes : ℕ
  pub free_bytes : ℕ

abbrev pub no_status : StorageStatus
no_status = record { mounted = false; total_bytes = 0; free_bytes = 0 }

-- `exists` says whether the mount point is there, `usage` is what the file system says of its space.
unfoldable pub refresh : Bool → Option (ℕ × ℕ) → StorageStatus → StorageStatus
refresh false usage previous = no_status
refresh true (some (total, free)) previous = record {
  mounted = true;
  total_bytes = total;
  free_bytes = free;
}
refresh true none previous = record {
  mounted = true;
  total_bytes = previous.total_bytes;
  free_bytes = previous.free_bytes;
}

abbrev pub card_capacity_bytes : ℕ → ℕ → ℕ
card_capacity_bytes capacity sector_size = min (capacity * sector_size) (2 ^ 64 - 1)

-- The statics that the worker, the watchdog and the panel share. A label is a number.
pub record SdState : Type 0 where
  pub call_started_us : ℕ
  pub call_label : ℕ
  pub call_depth : ℕ
  pub card_ready : Bool
  pub usage_refresh : Bool
  pub last_usage : StorageStatus
  pub pending_usage : Option StorageStatus

abbrev pub sd_boot : SdState
sd_boot = record {
  call_started_us = 0;
  call_label = 0;
  call_depth = 0;
  card_ready = false;
  usage_refresh = false;
  last_usage = no_status;
  pending_usage = none;
}

-- `SdDeadline::arm` at the given time, and the drop of the deadline.
unfoldable pub arm : ℕ → ℕ → SdState → SdState
arm label now s = record s {
  call_depth = u32 (s.call_depth + 1);
  call_label = if s.call_depth == 0 then label else s.call_label;
  call_started_us = max now 1;
}

unfoldable pub disarm : SdState → SdState
disarm s = record s {
  call_depth = u32 (s.call_depth + (2 ^ 32 - 1));
  call_started_us = if leb s.call_depth 1 then 0 else s.call_started_us;
}

-- One turn of the watchdog: whether it restarts the chip.
unfoldable pub monitor_turn : ℕ → SdState → Bool
monitor_turn now s =
    not (s.call_started_us == 0) && leb sd_call_timeout_us (now - s.call_started_us)

unfoldable pub request_usage_refresh : SdState → SdState
request_usage_refresh s = record s { usage_refresh = true }

unfoldable pub take_usage : SdState → Option StorageStatus × SdState
take_usage s = (s.pending_usage, record s { pending_usage = none })

unfoldable pub remember_usage : StorageStatus → SdState → SdState
remember_usage status s = record s { last_usage = status }

-- The part of the worker's loop that rereads the space, at the given time.
unfoldable pub reread_usage : ℕ → Bool → Option (ℕ × ℕ) → SdState → SdState
unfolding arm disarm refresh remember_usage
reread_usage now exists usage s =
    let cleared : SdState = record s { usage_refresh = false } in
    let status = refresh exists usage s.last_usage in
    if s.usage_refresh && s.card_ready
    then record (remember_usage status (disarm (arm 0 now cleared))) { pending_usage = some status }
    else cleared

-- `call`: on the worker itself the operation runs inline under a deadline of its own. The operation is
-- a function on the statics.
unfoldable pub call_inline : ℕ → ℕ → (SdState → SdState) → SdState → SdState
unfolding arm disarm
call_inline label now op s = disarm (op (arm label now s))

pub record StorageDevice : Type 0 where
  pub status : StorageStatus
  pub cs_pin : Option ℕ

abbrev pub unmounted : StorageDevice
unmounted = record { status = no_status; cs_pin = none }

module _ {O : Type 0} where
  -- One attempt: the pin is claimed, and given back if the card does not mount. `mount` is the status
  -- that the attempt ends with.
  abbrev pub after_mount : ℕ → StorageStatus → PinPool O → Option StorageDevice × PinPool O
  after_mount pin mount p =
      if mount.mounted
      then (some (record { status = mount; cs_pin = some pin }), p)
      else (none, release_pin (pos pin) p)

  abbrev pub attempt :
      ℕ → StorageStatus → Claimed O ℕ × PinPool O → Option StorageDevice × PinPool O
  attempt pin mount (err e, p) = (none, p)
  attempt pin mount (ok _, p) = after_mount pin mount p

  abbrev pub or_alternate :
      O → StorageStatus → Option StorageDevice × PinPool O → Option StorageDevice × PinPool O
  or_alternate who mount (some d, p) = (some d, p)
  or_alternate who mount (none, p) = attempt adalogger_sd_cs_alt_pin mount (take_gpio33 who p)

  abbrev pub or_unmounted : Option StorageDevice × PinPool O → StorageDevice × PinPool O
  or_unmounted (some d, p) = (d, p)
  or_unmounted (none, p) = (unmounted, p)

  -- `guard_ok` says whether the worker and the watchdog have started.
  unfoldable pub init_storage :
      Bool → O → StorageStatus → StorageStatus → PinPool O → StorageDevice × PinPool O
  init_storage guard_ok who primary alternate p =
      if guard_ok
      then or_unmounted
          (or_alternate who alternate (attempt adalogger_sd_cs_pin primary (take_gpio10 who p)))
      else (unmounted, p)

  unfoldable pub close_storage : StorageDevice → PinPool O → PinPool O
  close_storage d p = elim d.cs_pin [ none ↦ p | some pin ↦ release_pin (pos pin) p ]
