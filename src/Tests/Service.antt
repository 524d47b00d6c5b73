-- ===== src/Tests/Service.antt =====
-- The main loop, the zone lookups and the card's watchdog, src/app.rs, src/timezone.rs and
-- src/storage.rs.
use rust_gps_ntp.Common.{
  ℕ, ◌+◌, ◌≤◌, ◌<◌, ◌≡◌, ◌↔◌, refl, true, false, none, some, [], ◌∷◌, arith, ◌++◌,
}
use rust_gps_ntp.Common.Int.{pos}
use rust_gps_ntp.Ntp.Packet.{codes}
use rust_gps_ntp.Ntp.Params.{ntp_snapshot}
use rust_gps_ntp.Ntp.Life.Clock.{clock_of}
use rust_gps_ntp.Ntp.Poll.{would_block}
use rust_gps_ntp.Timezone.{
  TimezoneWorker, extract_json_string_field, new_worker, try_request, thread_takes, after_first,
}
use rust_gps_ntp.Gps.{starts_with}
use rust_gps_ntp.Protection.Cidr.{split_once, trim_start, is_whitespace}
use rust_gps_ntp.Timezone.Worker.{start, next, ask, takes, IsSingle, Reach-IsSingle}
use rust_gps_ntp.Storage.{SdState, sd_boot, arm, disarm, monitor_turn, no_status}
use rust_gps_ntp.Storage.Watchdog
use rust_gps_ntp.Storage.Watchdog.{boot, enter, leave, monitor_turn_iff}
use rust_gps_ntp.Ui.Feed.{new_feed}
use rust_gps_ntp.App.{App}
use rust_gps_ntp.App.Pass.{SnapshotReadings, PassReadings, service_pass}
use rust_gps_ntp.App.Holdover.{service_pass-clock}
use rust_gps_ntp.Tests.Clock.{whole, locked_server}
use rust_gps_ntp.Tests.Receiver.{plain_platform, had_fix, idle}

-- Two calls, the second inside the first, and then the end of the second.
abbrev nested : SdState
nested = disarm (arm 2 5_000_000 (arm 1 4_000_000 sd_boot))

nested-Reach : Watchdog.Reach 1 5_000_000 nested
nested-Reach = leave (enter 2 5_000_000 (enter 1 4_000_000 boot (omega arith)) (omega arith))

monitor_turn_iff_example :
    (monitor_turn 200_000_000 nested ≡ true) ↔ ((0 < 1) × (5_000_000 + 180_000_000 ≤ 200_000_000))
monitor_turn_iff_example = monitor_turn_iff 200_000_000 nested-Reach

-- A request that the thread has taken.
abbrev working : TimezoneWorker ℕ
working = thread_takes (try_request 7 new_worker).1

Reach-IsSingle_example : IsSingle working
Reach-IsSingle_example = Reach-IsSingle (next (next start (ask 7)) takes)

field_found :
    extract_json_string_field
      (codes "{"
        ++ (34
            ∷ (codes "timezone"
                ++ (34 ∷ b':' ∷ b' ' ∷ 34 ∷ (codes "Europe/Berlin" ++ (34 ∷ b'}' ∷ []))))))
      (codes "timezone")
    ≡ some (codes "Europe/Berlin")
unfolding extract_json_string_field after_first starts_with split_once trim_start is_whitespace
field_found = refl

-- A locked server, in a pass that brings a sentence and no pulse.
abbrev running : App plain_platform whole ℕ
running = record {
  uart = idle;
  server = locked_server;
  ui_feed = new_feed had_fix (ntp_snapshot locked_server true (pos 0) (pos 0) 0) 0 no_status;
  pps_state = record { last_count = 4; last_edge_us = 100_000_000 };
  runtime_tz = none;
  tz_worker = some new_worker;
  tz_initialized = false;
  current_tz_name = none;
  persisted = [];
  last_tz_lookup_us = 0;
  last_ntp_publish_us = 0;
  last_ntp_served = 0;
  last_rtc_fallback_us = 0;
  last_rtc_write_us = 0;
  last_rtc_utc = none;
  first_nmea_logged = true;
  first_fix_logged = true;
  first_pps_logged = true;
  first_ntp_client_logged = false;
  rtc_seeded_from_gps = true;
}

abbrev at : ℕ → SnapshotReadings
at now = record { params_us = now; current_us = now + 1; wall = 0 }

abbrev pub readings : PassReadings plain_platform
readings = record {
  uart_bytes = some (codes "$GPRMC,225446,A,48,N,11,E,,,191124*2C\n");
  utf8 = λ b. some b;
  default_tz = none;
  fudge = pos 0;
  received = would_block ∷ [];
  pulse_count = 4;
  pulse_edge_us = 100_000_000;
  utc_us = λ i. 100_200_000 + i;
  lookup_us = λ i. 100_200_010 + i;
  at_served = at 100_200_100;
  served_us = 100_200_103;
  fallback_us = 100_200_200;
  seed_us = 100_200_300;
  at_pulse = at 100_200_400;
  pulse_us = 100_200_403;
  at_write = at 100_200_500;
  read_us = 100_200_600;
  refresh_us = 100_200_700;
  at_refresh = at 100_200_701;
}

service_pass-clock_example :
    clock_of (service_pass true readings running).server ≡ clock_of locked_server
service_pass-clock_example = service_pass-clock true readings running refl (omega arith)
