-- ===== src/App/Zones.antt =====
-- The receiver's consumers and the zone lookups of the main loop, src/app.rs.
use rust_gps_ntp.Common.{
  suc, ℕ, Bool, true, false, Option, none, some, List, [], ◌∷◌, ◌&&◌, not, if◌then◌else◌,
}
use rust_gps_ntp.Common.Int.{ℤ, pos}
use rust_gps_ntp.Ntp.Float.{Floats}
use rust_gps_ntp.Ntp.Server.{update_gps_utc_seconds}
use rust_gps_ntp.Protection.Cidr.{Text}
use rust_gps_ntp.Gps.Sentences.{Platform, GpsSnapshot}
use rust_gps_ntp.Gps.Uart.{Call, on_snapshot, on_fix}
use rust_gps_ntp.Timezone.{
  TimezoneWorker, Lookup, found, nameless, failed, lookup_interval_us, try_request, poll_worker,
}
use rust_gps_ntp.Ui.Feed.{is_due, publish_gps}
use rust_gps_ntp.App.{Coords, App, is_name, or_else, offset_in}

module _ {pf : Platform} {fl : Floats} {B : Type 0} where
  -- `set_runtime_timezone` with the name, and `tz_offset_hours_at_unix` with the zone in force, which
  -- is `default` of the build where none has been set.
  abbrev pub configured_timezone : Option pf.Zone → App pf fl B → Option pf.Zone
  configured_timezone default a = elim a.runtime_tz [ none ↦ default | some tz ↦ some tz ]

  abbrev pub apply_zone : Text → Option pf.Zone → App pf fl B → App pf fl B
  apply_zone name none a = a
  apply_zone name (some tz) a = record a {
    runtime_tz = some tz;
    tz_initialized = true;
    persisted = if is_name name a.current_tz_name then a.persisted else name ∷ a.persisted;
    current_tz_name = some name;
  }

  unfoldable pub apply_timezone_lookup_result : Lookup → App pf fl B → App pf fl B
  apply_timezone_lookup_result (found name) a = apply_zone name (pf.zone_of_name name) a
  apply_timezone_lookup_result nameless a = a
  apply_timezone_lookup_result failed a = a

  abbrev pub asked : ℕ → Bool × TimezoneWorker (Coords pf fl B) → App pf fl B → App pf fl B
  asked now_us (true, w) a = record a { tz_worker = some w; last_tz_lookup_us = now_us }
  asked now_us (false, w) a = record a { tz_worker = some w }

  -- `maybe_schedule_timezone_lookup`, for the worker if there is one.
  unfoldable pub maybe_schedule_timezone_lookup :
      ℕ → GpsSnapshot pf → Option (TimezoneWorker (Coords pf fl B)) → App pf fl B → App pf fl B
  unfolding try_request lookup_interval_us
  maybe_schedule_timezone_lookup now_us gps none a = a
  maybe_schedule_timezone_lookup now_us gps (some w) a =
      if is_due now_us a.last_tz_lookup_us (lookup_interval_us a.tz_initialized) && not w.pending
      then asked now_us (try_request (gps.lat, gps.lon) w) a
      else a

  abbrev pub give_utc : ℕ → Option ℤ → App pf fl B → App pf fl B
  give_utc now_us none a = a
  give_utc now_us (some utc) a = record a {
    server = update_gps_utc_seconds utc (pos now_us) a.server;
  }

  -- The consumer's two methods, `GpsDispatch`, at the time that the server reads and the one that the
  -- lookup reads.
  unfoldable pub dispatch : ℕ → ℕ → Call pf → App pf fl B → App pf fl B
  unfolding publish_gps update_gps_utc_seconds maybe_schedule_timezone_lookup
  dispatch utc_us lookup_us (on_snapshot gps) a = record a { ui_feed = publish_gps gps a.ui_feed }
  dispatch utc_us lookup_us (on_fix gps) a =
      let b : App pf fl B = give_utc utc_us gps.utc_unix_seconds a in
      maybe_schedule_timezone_lookup lookup_us gps b.tz_worker b

  -- The calls of a poll in turn; the times are those of each call, by its number.
  unfoldable pub dispatch_all : (ℕ → ℕ) → (ℕ → ℕ) → ℕ → List (Call pf) → App pf fl B → App pf fl B
  unfolding dispatch
  dispatch_all utc_us lookup_us i [] a = a
  dispatch_all utc_us lookup_us i (c ∷ calls) a =
      dispatch_all utc_us lookup_us (suc i) calls (dispatch (utc_us i) (lookup_us i) c a)

  -- The offset that is shown, once a lookup has been applied.
  abbrev pub show_offset : Option pf.Zone → Option ℤ → App pf fl B → App pf fl B
  show_offset default none a = a
  show_offset default (some utc) a =
      let snap : GpsSnapshot pf = record a.uart.snapshot {
        tz_offset_hours = offset_in pf (configured_timezone default a) utc;
      } in
      record a { uart = record a.uart { snapshot = snap }; ui_feed = publish_gps snap a.ui_feed }

  abbrev pub after_lookup :
      Option pf.Zone → Option Lookup × TimezoneWorker (Coords pf fl B) → App pf fl B → App pf fl B
  after_lookup default (none, w) a = record a { tz_worker = some w }
  after_lookup default (some result, w) a =
      let b : App pf fl B = apply_timezone_lookup_result result (record a { tz_worker = some w }) in
      if b.tz_initialized
      then show_offset default
          (or_else b.uart.snapshot.utc_unix_seconds b.ui_feed.rtc.utc_unix_seconds) b
      else b

  unfoldable pub poll_timezone :
      Option pf.Zone → Option (TimezoneWorker (Coords pf fl B)) → App pf fl B → App pf fl B
  unfolding apply_timezone_lookup_result publish_gps poll_worker
  poll_timezone default none a = a
  poll_timezone default (some w) a = after_lookup default (poll_worker w) a
