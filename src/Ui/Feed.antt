-- ===== src/Ui/Feed.antt =====
-- What the tasks of the user interface share with the main loop, `UiFeed` of src/ui_task.rs, and the
-- sampling of the sensors that the panel task does between its frames. The samples of the receiver,
-- of the clock and of the battery are of any type; a lock is never poisoned.
use rust_gps_ntp.Common.{
  ℕ, ◌-◌, Bool, true, false, Option, none, some, List, [], ◌∷◌, ◌++◌, ◌||◌, ◌&&◌, leb, ◌==◌,
  if◌then◌else◌,
}
use rust_gps_ntp.Common.Int.{ℤ, pos, ltb_ℤ}
use rust_gps_ntp.Storage.{StorageStatus, SdState, request_usage_refresh, take_usage}

abbrev pub battery_sample_us : ℕ
battery_sample_us = 5_000_000

abbrev pub rtc_sample_us : ℕ
rtc_sample_us = 1_000_000

abbrev pub status_refresh_us : ℕ
status_refresh_us = 60_000_000

-- `RtcSnapshot` of src/rtc.rs.
pub record RtcSnapshot : Type 0 where
  pub detected : Bool
  pub utc_unix_seconds : Option ℤ

abbrev pub no_rtc : RtcSnapshot
no_rtc = record { detected = false; utc_unix_seconds = none }

pub record UiFeed (G N B : Type 0) : Type 0 where
  pub gps : G
  pub pps_delta_us : ℕ
  pub ntp : N
  pub rtc : RtcSnapshot
  pub storage : StorageStatus
  pub battery : B
  pub rtc_write_pending : ℤ

module _ {G N B : Type 0} where
  -- The samples before the first are the defaults of their types.
  unfoldable pub new_feed : G → N → B → StorageStatus → UiFeed G N B
  new_feed gps ntp battery storage = record {
    gps = gps;
    pps_delta_us = 0;
    ntp = ntp;
    rtc = no_rtc;
    storage = storage;
    battery = battery;
    rtc_write_pending = pos 0;
  }

  unfoldable pub publish_gps : G → UiFeed G N B → UiFeed G N B
  publish_gps g f = record f { gps = g }

  unfoldable pub publish_pps_delta : ℕ → UiFeed G N B → UiFeed G N B
  publish_pps_delta d f = record f { pps_delta_us = d }

  unfoldable pub publish_ntp : N → UiFeed G N B → UiFeed G N B
  publish_ntp n f = record f { ntp = n }

  unfoldable pub publish_rtc : RtcSnapshot → UiFeed G N B → UiFeed G N B
  publish_rtc r f = record f { rtc = r }

  unfoldable pub request_rtc_write : ℤ → UiFeed G N B → UiFeed G N B
  request_rtc_write utc f = record f { rtc_write_pending = utc }

  unfoldable pub publish_storage : StorageStatus → UiFeed G N B → UiFeed G N B
  publish_storage s f = record f { storage = s }

  unfoldable pub publish_battery : B → UiFeed G N B → UiFeed G N B
  publish_battery b f = record f { battery = b }

-- The variables of the panel task that pace its samples, and the times that it has handed to the
-- clock chip, in their order.
pub record Sampler (G N B : Type 0) : Type 0 where
  pub feed : UiFeed G N B
  pub last_battery_us : ℕ
  pub last_rtc_us : ℕ
  pub last_storage_us : ℕ
  pub written : List ℤ

-- What the bus answers in one pass: the battery's reading, the chip's time, and whether the lock of
-- the cached time is free. The error of a write is logged and changes nothing else.
pub record BusReadings (B : Type 0) : Type 0 where
  pub battery_monitor : Bool
  pub battery_reading : Option B
  pub rtc_present : Bool
  pub rtc_reading : Option ℤ
  pub rtc_lock_free : Bool

abbrev pub is_due : ℕ → ℕ → ℕ → Bool
is_due now last interval = last == 0 || leb interval (now - last)

module _ {G N B : Type 0} where
  abbrev pub with_battery : Bool → Option B → UiFeed G N B → UiFeed G N B
  with_battery true (some b) f = publish_battery b f
  with_battery true none f = f
  with_battery false _ f = f

  unfoldable pub sample_battery : ℕ → BusReadings B → Sampler G N B → Sampler G N B
  unfolding publish_battery
  sample_battery now r s =
      if is_due now s.last_battery_us battery_sample_us
      then record s {
        feed = with_battery r.battery_monitor r.battery_reading s.feed;
        last_battery_us = now;
      }
      else s

  -- The pending write is taken out of the feed, whatever comes of it.
  unfoldable pub write_pending : Sampler G N B → Sampler G N B
  write_pending s =
      let pending = s.feed.rtc_write_pending in
      record s {
        feed = record s.feed { rtc_write_pending = pos 0 };
        written = if ltb_ℤ (pos 0) pending then s.written ++ (pending ∷ []) else s.written;
      }

  unfoldable pub sample_rtc : ℕ → BusReadings B → Sampler G N B → Sampler G N B
  unfolding publish_rtc
  sample_rtc now r s =
      if is_due now s.last_rtc_us rtc_sample_us && r.rtc_lock_free
      then record s {
        feed = publish_rtc (record { detected = true; utc_unix_seconds = r.rtc_reading }) s.feed;
        last_rtc_us = now;
      }
      else s

  unfoldable pub sample_sensors : ℕ → BusReadings B → Sampler G N B → Sampler G N B
  unfolding sample_battery write_pending sample_rtc
  sample_sensors now r s =
      let t = sample_battery now r s in
      if r.rtc_present then sample_rtc now r (write_pending t) else t

  -- The request for a reread of the card's space, and the copy of a finished one.
  unfoldable pub ask_storage : ℕ → Sampler G N B → SdState → Sampler G N B × SdState
  unfolding request_usage_refresh
  ask_storage now s sd =
      if s.feed.storage.mounted && is_due now s.last_storage_us status_refresh_us
      then (record s { last_storage_us = now }, request_usage_refresh sd)
      else (s, sd)

  abbrev pub copied : Option StorageStatus → Sampler G N B → Sampler G N B
  copied none s = s
  copied (some status) s = record s { feed = publish_storage status s.feed }

  -- The part of the panel task's loop after its frame.
  unfoldable pub after_frame :
      Bool → ℕ → BusReadings B → Sampler G N B → SdState → Sampler G N B × SdState
  unfolding sample_sensors ask_storage take_usage publish_storage
  after_frame frame_pending now r s sd =
      let t : Sampler G N B × SdState =
        if frame_pending then (s, sd) else ask_storage now (sample_sensors now r s) sd in
      (copied (take_usage t.1).0 t.0, (take_usage t.1).1)
