-- ===== src/App/Start.antt =====
-- The start of `run` in src/app.rs, from the board's start to the loop, and the passes of the loop
-- between the turns of the lookup thread and of the panel task.
pub mod Silent
use rust_gps_ntp.Common.{ℕ, Bool, true, false, Option, none, some, List, [], ◌∷◌, if◌then◌else◌}
use rust_gps_ntp.Common.Int.{ℤ}
use rust_gps_ntp.Ntp.Float.{Floats}
use rust_gps_ntp.Ntp.Params.{NtpSnapshot}
use rust_gps_ntp.Protection.Cidr.{Text}
use rust_gps_ntp.Gps.Sentences.{Platform, GpsSnapshot}
use rust_gps_ntp.Gps.Uart.{discard_backlog}
use rust_gps_ntp.Storage.{SdState}
use rust_gps_ntp.Timezone.{TimezoneWorker, Lookup, new_worker, thread_takes, thread_sends}
use rust_gps_ntp.Ui.Feed.{BusReadings, Sampler, after_frame}
use rust_gps_ntp.Board.{BoardBoot, init_ntp_server}
use rust_gps_ntp.App.{App}
use rust_gps_ntp.Ntp.Server.{is_some}
use rust_gps_ntp.App.Pass.{PassReadings, service_pass}

-- The main loop's state, with the variables of the panel task that pace its samples and the times
-- that it has handed to the clock chip; the two share the feed.
pub record Tasks (pf : Platform) (fl : Floats) (B : Type 0) : Type 0 where
  pub app : App pf fl B
  pub last_battery_us : ℕ
  pub last_rtc_us : ℕ
  pub last_storage_us : ℕ
  pub written : List ℤ

-- A turn of one of the tasks: a pass of the main loop, the thread of the zone lookups taking a
-- request or sending the result of the one that it is at, or the panel task's pass after its frame,
-- with the statics of the card as that pass finds them.
pub data Turn (pf : Platform) (B : Type 0) : Type 0 where
  looped : PassReadings pf → Turn pf B
  lookup_taken : Turn pf B
  lookup_sent : (pf.F32 × pf.F32 → Lookup) → Turn pf B
  sampled : Bool → ℕ → BusReadings B → SdState → Turn pf B

module _ {pf : Platform} {fl : Floats} {B : Type 0} where
  -- The state before the first pass: the setting of the allowlist, the time at which the server is
  -- seeded, and whether the thread of the zone lookups could be spawned.
  unfoldable pub start_app : Text → ℤ → Bool → BoardBoot pf (NtpSnapshot fl) B → App pf fl B
  unfolding init_ntp_server discard_backlog new_worker
  start_app acl_cidr now_us spawned board = record {
    uart = discard_backlog board.gps_uart;
    server = init_ntp_server fl acl_cidr board.boot_rtc_unix now_us;
    ui_feed = board.ui_feed;
    pps_state = board.pps.poll_state;
    runtime_tz = board.timezone.runtime_tz;
    tz_worker = if spawned then some new_worker else none;
    tz_initialized = board.timezone.tz_initialized;
    current_tz_name = board.timezone.current_tz_name;
    persisted = [];
    last_tz_lookup_us = 0;
    last_ntp_publish_us = 0;
    last_ntp_served = 0;
    last_rtc_fallback_us = 0;
    last_rtc_write_us = 0;
    last_rtc_utc = board.boot_rtc_unix;
    first_nmea_logged = false;
    first_fix_logged = false;
    first_pps_logged = false;
    first_ntp_client_logged = false;
    rtc_seeded_from_gps = is_some board.boot_rtc_unix;
  }

  unfoldable pub start_tasks : App pf fl B → Tasks pf fl B
  start_tasks a = record {
    app = a;
    last_battery_us = 0;
    last_rtc_us = 0;
    last_storage_us = 0;
    written = [];
  }

  abbrev pub with_worker :
      (TimezoneWorker (pf.F32 × pf.F32) → TimezoneWorker (pf.F32 × pf.F32))
      → App pf fl B
      → Option (TimezoneWorker (pf.F32 × pf.F32))
      → App pf fl B
  with_worker f a none = a
  with_worker f a (some w) = record a { tz_worker = some (f w) }

  abbrev pub panel_turn : Bool → ℕ → BusReadings B → SdState → Tasks pf fl B → Tasks pf fl B
  unfolding after_frame
  panel_turn frame_pending now r sd t =
      let sampler : Sampler (GpsSnapshot pf) (NtpSnapshot fl) B = record {
        feed = t.app.ui_feed;
        last_battery_us = t.last_battery_us;
        last_rtc_us = t.last_rtc_us;
        last_storage_us = t.last_storage_us;
        written = t.written;
      } in
      let s = (after_frame frame_pending now r sampler sd).0 in
      record {
        app = record t.app { ui_feed = s.feed };
        last_battery_us = s.last_battery_us;
        last_rtc_us = s.last_rtc_us;
        last_storage_us = s.last_storage_us;
        written = s.written;
      }

  unfoldable pub take_turn : Bool → Turn pf B → Tasks pf fl B → Tasks pf fl B
  unfolding service_pass thread_takes thread_sends after_frame
  take_turn rtc_present (looped r) t = record t { app = service_pass rtc_present r t.app }
  take_turn rtc_present lookup_taken t = record t {
    app = with_worker thread_takes t.app t.app.tz_worker;
  }
  take_turn rtc_present (lookup_sent fetch) t = record t {
    app = with_worker (thread_sends fetch) t.app t.app.tz_worker;
  }
  take_turn rtc_present (sampled frame_pending now r sd) t = panel_turn frame_pending now r sd t

  -- The loop beside the two tasks that it shares its state with, for so many turns in their order,
  -- each taken whole: what another task does in the middle of a pass stands before or after the pass.
  unfoldable pub run : Bool → List (Turn pf B) → Tasks pf fl B → Tasks pf fl B
  unfolding take_turn
  run rtc_present [] t = t
  run rtc_present (x ∷ xs) t = run rtc_present xs (take_turn rtc_present x t)
