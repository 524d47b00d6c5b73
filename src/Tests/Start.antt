-- ===== src/Tests/Start.antt =====
-- The start of the board, the network and the caches of the zone, src/board.rs, src/wifi.rs and
-- src/timezone.rs.
use rust_gps_ntp.Common.{
  [], ℕ, List, All, ◌≡◌, refl, true, false, Option, none, some, ◌∷◌, arith, if◌then◌else◌, take,
}
use rust_gps_ntp.Common.Int.{ℤ, pos}
use rust_gps_ntp.Ntp.Packet.{codes}
use rust_gps_ntp.Protection.Cidr.{Text, trim, is_whitespace}
use rust_gps_ntp.Gps.Sentences.{Platform}
use rust_gps_ntp.Pins.{from_board_pins}
use rust_gps_ntp.Pins.Startup.{started, failed}
use rust_gps_ntp.SdLog.Http.{eq_text}
use rust_gps_ntp.Storage.Mount.{MountAnswers, try_mount}
use rust_gps_ntp.Timezone.Cache.{
  Nvs, FileAnswers, Caches, TimezoneBoot, persist_cached, load_timezone_boot, name_buf_len,
}
use rust_gps_ntp.Timezone.Cache.Restored.{
  IsStorable, GivesBack, on_card, load_timezone_boot-persisted,
}
use rust_gps_ntp.Wifi.{WifiCredentials, connect_wifi_sta, load_wifi_credentials_from_env}
use rust_gps_ntp.Wifi.Security.{IsSecured, connect_wifi_sta-IsSecured}
use rust_gps_ntp.Board.{BootAnswers, boot}
use rust_gps_ntp.Board.Starts.{all_ok, board_of, boot-starts}
use rust_gps_ntp.Ntp.Packet.{stratum_unsync}
use rust_gps_ntp.Ntp.Params.{NtpSnapshot, ntp_snapshot, discipline_params}
use rust_gps_ntp.Ntp.Server.{from_socket}
use rust_gps_ntp.Board.{BoardBoot}
use rust_gps_ntp.App.Pass.{PassReadings}
use rust_gps_ntp.Storage.{sd_boot}
use rust_gps_ntp.Timezone.{found}
use rust_gps_ntp.Ui.Feed.{BusReadings}
use rust_gps_ntp.App.Start.{
  Turn, looped, lookup_taken, lookup_sent, sampled, start_app, start_tasks, run,
}
use rust_gps_ntp.App.Start.Silent.{run-unsync}
use rust_gps_ntp.Tests.Clock.{whole}
use rust_gps_ntp.Tests.Service.{readings}
use rust_gps_ntp.Tests.Receiver.{plain_platform}

abbrev berlin : Text
berlin = codes "Europe/Berlin"

-- A platform that knows one zone.
abbrev one_zone : Platform
one_zone = record plain_platform {
  zone_of_name = λ name. if eq_text name berlin then some 1 else none;
}

-- A partition that keeps one name.
abbrev one_name : Nvs (Option Text)
one_name = record { get_str = λ n s. some s; set_str = λ name s. some (some name) }

one_name-GivesBack : GivesBack plain_platform (λ b. some b) (λ s. s) one_name
one_name-GivesBack name s t taken short = cc (taken)

-- A board without NVS, with an empty card.
abbrev empty_caches : Caches (Option Text)
empty_caches = record { store = none; file = none }

abbrev all_written : FileAnswers
all_written = record { directory = true; opened = true; short_write = none }

berlin-IsStorable : IsStorable one_zone (λ b. some b) (λ s. s) berlin 1
unfolding trim
berlin-IsStorable = record { known = refl; trimmed = refl; full = refl; short = omega arith }

load_timezone_boot-persisted_example :
    load_timezone_boot one_zone
      (λ b. some b)
      one_name
      true
      (λ content. some (take name_buf_len content))
      (λ z t. pos 2)
      (some (pos 1_700_000_000))
      (persist_cached (λ s. s) one_name true all_written berlin empty_caches)
    ≡ record {
      runtime_tz = some 1;
      tz_offset_hours = pos 2;
      tz_initialized = true;
      current_tz_name = some berlin;
    }
unfolding persist_cached
load_timezone_boot-persisted_example =
    load_timezone_boot-persisted one_zone (λ b. some b) (λ s. s) one_name berlin 1 true all_written
      empty_caches (λ z t. pos 2) (pos 1_700_000_000) refl berlin-IsStorable one_name-GivesBack
      (on_card refl refl refl refl refl)

abbrev home : WifiCredentials
home = record { ssid = codes "home"; pass = codes "secret99" }

connect_wifi_sta-IsSecured_example : All IsSecured (connect_wifi_sta (λ c. true) home).0
unfolding load_wifi_credentials_from_env trim is_whitespace
connect_wifi_sta-IsSecured_example =
    connect_wifi_sta-IsSecured (some (codes " home ")) (some (codes "secret99")) home (λ c. true)
      refl

-- Nothing answers on the first pin of the card, which is mounted on the second.
abbrev no_card : MountAnswers
no_card = record {
  host = true;
  card = none;
  fat = true;
  mount = true;
  marker_open = true;
  marker_write = true;
  usage = none;
}

abbrev good_card : MountAnswers
good_card = record no_card { card = some (1_000_000, 512) }

abbrev all_answers : BootAnswers
all_answers = record {
  peripherals = true;
  nvs = true;
  event_loop = true;
  wifi = λ c. true;
  uart = true;
  pps = record { input = true; subscribe = true; edge_kind = true; enable = true };
  display = record { power_output = true; power_high = true; spi_bus = true; spi_device = true };
  i2c = true;
  rtc = record { present = true; boot_utc = some (pos 1_700_000_000) };
  guard = true;
  primary = no_card;
  alternate = good_card;
  sd_writer = true;
  log_server = true;
  panel = record {
    dc = true;
    rst = true;
    backlight = true;
    button = true;
    backlight_level = true;
    panel = true;
    orientation = true;
  };
  ui_task = true;
}

-- A start in which no zone is cached.
abbrev no_zone : Option ℤ → TimezoneBoot plain_platform
no_zone utc = record {
  runtime_tz = none;
  tz_offset_hours = pos 0;
  tz_initialized = false;
  current_tz_name = none;
}

boot-starts_example :
    (boot plain_platform {N = ℕ} {B = ℕ} 0 0 home all_answers no_zone from_board_pins).0 ≡ (
      if all_ok home all_answers
      then started (board_of plain_platform {N = ℕ} {B = ℕ} 0 0 all_answers no_zone)
      else failed)
boot-starts_example = boot-starts plain_platform {N = ℕ} {B = ℕ} 0 0 home all_answers no_zone

all_answers-ok : all_ok home all_answers ≡ true
unfolding connect_wifi_sta try_mount
all_answers-ok = refl

abbrev first_ntp : NtpSnapshot whole
first_ntp = ntp_snapshot (from_socket whole) false (pos 0) (pos 0) 0

abbrev on_desk : BoardBoot plain_platform (NtpSnapshot whole) ℕ
on_desk = board_of plain_platform first_ntp 0 all_answers no_zone

on_desk-started :
    (boot plain_platform first_ntp 0 home all_answers no_zone from_board_pins).0 ≡ started on_desk
unfolding connect_wifi_sta try_mount
on_desk-started = boot-starts plain_platform first_ntp 0 home all_answers no_zone

-- A pass that brings a sentence with a fix, before the first pulse.
abbrev pulseless : PassReadings plain_platform
pulseless = record readings { pulse_count = 0 }

-- The chips answer, and the clock chip says a time.
abbrev chips : BusReadings ℕ
chips = record {
  battery_monitor = true;
  battery_reading = some 3;
  rtc_present = true;
  rtc_reading = some (pos 1_700_000_100);
  rtc_lock_free = true;
}

-- A pass, a lookup that finds a zone, a sample of the chips, and another pass.
abbrev turns : List (Turn plain_platform ℕ)
turns =
    looped pulseless
    ∷ lookup_taken
    ∷ lookup_sent (λ c. found berlin)
    ∷ sampled false 3_000_000 chips sd_boot
    ∷ looped pulseless
    ∷ []

run-unsync_example :
    let t =
      run on_desk.rtc_present turns (start_tasks (start_app [] (pos 5_000_000) true on_desk)) in
    let dp = discipline_params t.app.server true (pos 200_000_000) (pos 200_000_000) 0 in
    (dp.stratum ≡ stratum_unsync) × (dp.leap ≡ 3)
run-unsync_example =
    run-unsync first_ntp 0 home all_answers no_zone on_desk [] (pos 5_000_000) true turns true
      (pos 200_000_000) (pos 200_000_000) 0 on_desk-started (refl, (tt, (tt, (tt, (refl, tt)))))
