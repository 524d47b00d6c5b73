-- ===== src/App.antt =====
-- The main loop, src/app.rs: how the receiver, the pulse, the server, the zone lookups and the clock
-- chip work together. Times are microseconds since boot, never negative; log lines are left out.
pub mod Zones
pub mod Pass
pub mod Holdover
pub mod Start
use rust_gps_ntp.Common.{
  ℕ, ◌+◌, ◌-◌, ◌/◌, Bool, true, false, Option, none, some, List, [], ◌∷◌, ◌++◌, ◌&&◌, ◌||◌, not,
  leb, ltb, ◌==◌, if◌then◌else◌,
}
use rust_gps_ntp.Common.Int.{ℤ, pos}
use rust_gps_ntp.Ntp.Bytes.{Buffer}
use rust_gps_ntp.Ntp.Float.{Floats}
use rust_gps_ntp.Ntp.Server.{
  NtpServer, seed_utc_seconds, update_gps_utc_seconds, current_utc_unix_seconds, is_some,
}
use rust_gps_ntp.Ntp.Params.{NtpSnapshot, ntp_snapshot}
use rust_gps_ntp.Gps.Uart
use rust_gps_ntp.Ntp.Packet.{DisciplineState, locked, holdover, unsync}
use rust_gps_ntp.Ntp.Pulse.{observe_pps_pulse}
use rust_gps_ntp.Ntp.Poll
use rust_gps_ntp.Ntp.Poll.{Received}
use rust_gps_ntp.Pps
use rust_gps_ntp.Pps.{PpsPollState, PpsEvent, first, delta}
use rust_gps_ntp.Protection.Cidr.{Text}
use rust_gps_ntp.SdLog.Http.{eq_text}
use rust_gps_ntp.Gps.Sentences.{Platform, GpsSnapshot}
use rust_gps_ntp.Gps.Uart.{GpsUart, Call, on_snapshot, on_fix}
use rust_gps_ntp.Timezone.{
  TimezoneWorker, Lookup, found, nameless, failed, lookup_interval_us, try_request, poll_worker,
}
use rust_gps_ntp.Ui.Feed.{
  UiFeed, is_due, publish_gps, publish_ntp, publish_pps_delta, request_rtc_write,
}

-- `WRITEBACK_INTERVAL_US` and `FALLBACK_INTERVAL_US` of src/rtc.rs.
abbrev pub writeback_interval_us : ℕ
writeback_interval_us = 60_000_000

abbrev pub fallback_interval_us : ℕ
fallback_interval_us = 1_000_000

abbrev pub publish_interval_us : ℕ
publish_interval_us = 1_000_000

abbrev pub is_locked_state : DisciplineState → Bool
is_locked_state locked = true
is_locked_state holdover = false
is_locked_state unsync = false

abbrev pub or_zero : Option ℤ → ℤ
or_zero none = pos 0
or_zero (some hours) = hours

abbrev pub is_name : Text → Option Text → Bool
is_name name none = false
is_name name (some current) = eq_text current name

abbrev pub or_else : Option ℤ → Option ℤ → Option ℤ
or_else none other = other
or_else (some v) other = some v

abbrev pub offset_in : (pf : Platform) → Option pf.Zone → ℤ → ℤ
offset_in pf none utc = pos 0
offset_in pf (some tz) utc = or_zero (pf.offset_hours_at_unix tz utc)

-- The platform of the receiver, the floating-point numbers of the server, and the battery's samples.
module _ (pf : Platform) (fl : Floats) (B : Type 0) where
  abbrev pub Coords : Type 0
  Coords = pf.F32 × pf.F32

  abbrev pub Feed : Type 0
  Feed = UiFeed (GpsSnapshot pf) (NtpSnapshot fl) B

  -- The variables of `run`. `persisted` are the names that have been handed to the zone's cache, the
  -- latest first, and `runtime_tz` is the static of src/gps.rs.
  pub record App : Type 0 where
    pub uart : GpsUart pf
    pub server : NtpServer fl
    pub ui_feed : Feed
    pub pps_state : PpsPollState
    pub runtime_tz : Option pf.Zone
    pub tz_worker : Option (TimezoneWorker Coords)
    pub tz_initialized : Bool
    pub current_tz_name : Option Text
    pub persisted : List Text
    pub last_tz_lookup_us : ℕ
    pub last_ntp_publish_us : ℕ
    pub last_ntp_served : ℕ
    pub last_rtc_fallback_us : ℕ
    pub last_rtc_write_us : ℕ
    pub last_rtc_utc : Option ℤ
    pub first_nmea_logged : Bool
    pub first_fix_logged : Bool
    pub first_pps_logged : Bool
    pub first_ntp_client_logged : Bool
    pub rtc_seeded_from_gps : Bool

module _ {pf : Platform} {fl : Floats} {B : Type 0} where
  -- `maybe_apply_rtc_fallback`, at the time that it reads and the one that the server reads.
  abbrev pub seed_from_rtc : ℕ → ℕ → Option ℤ → App pf fl B → App pf fl B
  seed_from_rtc now_us server_us none a = a
  seed_from_rtc now_us server_us (some secs) a =
      if is_due now_us a.last_rtc_fallback_us fallback_interval_us
      then record a {
        server = seed_utc_seconds secs (pos server_us) a.server;
        last_rtc_utc = some secs;
        last_rtc_fallback_us = now_us;
      }
      else a

  unfoldable pub maybe_apply_rtc_fallback : ℕ → ℕ → App pf fl B → App pf fl B
  unfolding seed_utc_seconds
  maybe_apply_rtc_fallback now_us server_us a =
      if a.uart.snapshot.fix
      then a
      else if not a.ui_feed.rtc.detected
      then a
      else seed_from_rtc now_us server_us a.ui_feed.rtc.utc_unix_seconds a

  abbrev pub queue_write : ℕ → Option ℤ → App pf fl B → App pf fl B
  queue_write now_us none a = a
  queue_write now_us (some secs) a = record a {
    ui_feed = request_rtc_write secs a.ui_feed;
    last_rtc_write_us = now_us;
  }

  -- `maybe_writeback_rtc`; the clock is read for the state of the discipline and for the time.
  unfoldable pub maybe_writeback_rtc : ℕ → ℕ → ℕ → ℕ → ℕ → App pf fl B → App pf fl B
  unfolding ntp_snapshot current_utc_unix_seconds request_rtc_write
  maybe_writeback_rtc now_us params_us current_us wall read_us a =
      let snap = ntp_snapshot a.server a.uart.snapshot.fix (pos params_us) (pos current_us) wall in
      if not a.uart.snapshot.fix
      then a
      else if not (is_locked_state snap.snapshot_state)
      then a
      else if is_due now_us a.last_rtc_write_us writeback_interval_us
      then queue_write now_us (current_utc_unix_seconds a.server (pos read_us)) a
      else a
