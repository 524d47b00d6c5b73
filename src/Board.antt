-- ===== src/Board.antt =====
-- The start of the board, `BoardBoot` of src/board.rs, over one pool of pins. What the platform's
-- calls answer are arguments; a device is kept as far as its module models it. What the bus tells of the
-- clock chip, and what the caches of the zone give, are arguments too: `init` of Rtc/Chip.antt and
-- `load_timezone_boot` of Timezone/Cache.antt model them. The gauge found on the bus goes to the
-- user interface.
pub mod Devices
pub mod Card
pub mod Starts
use rust_gps_ntp.Common.{
  ℕ, Bool, true, false, Option, none, some, List, [], ◌∷◌, ◌&&◌, ◌||◌, if◌then◌else◌,
}
use rust_gps_ntp.Common.Int.{ℤ, pos}
use rust_gps_ntp.Protection.Cidr.{Text}
use rust_gps_ntp.Ntp.Float.{Floats}
use rust_gps_ntp.Ntp.Server.{NtpServer, from_socket, apply_boot_acl, seed_utc_seconds}
use rust_gps_ntp.Pins.Startup.{Startup, ◌>>=◌, ◌>>◌, pure, platform}
use rust_gps_ntp.Gps.Sentences.{Platform, GpsSnapshot}
use rust_gps_ntp.Gps.Uart.{GpsUart, init_uart, set_snapshot}
use rust_gps_ntp.Rtc.Chip.{RtcDevice}
use rust_gps_ntp.Timezone.Cache.{TimezoneBoot}
use rust_gps_ntp.Ui.Feed.{UiFeed, new_feed, publish_rtc, publish_gps}
use rust_gps_ntp.Pps.Device.{InputAnswers, PpsDevice, init_pps}
use rust_gps_ntp.Display.Device.{
  BusAnswers, PanelAnswers, DisplayDevice, init_display_device, init_panel,
}
use rust_gps_ntp.I2c.{init_bus}
use rust_gps_ntp.Storage.{StorageDevice, StorageStatus}
use rust_gps_ntp.Storage.Mount.{MountAnswers, start_storage}
use rust_gps_ntp.Wifi.{WifiCall, WifiCredentials, connect_wifi_sta}

pub record BootAnswers : Type 0 where
  pub peripherals : Bool
  pub nvs : Bool
  pub event_loop : Bool
  pub wifi : WifiCall → Bool
  pub uart : Bool
  pub pps : InputAnswers
  pub display : BusAnswers
  pub i2c : Bool
  pub rtc : RtcDevice
  pub guard : Bool
  pub primary : MountAnswers
  pub alternate : MountAnswers
  pub sd_writer : Bool
  pub log_server : Bool
  pub panel : PanelAnswers
  pub ui_task : Bool

pub record BoardBoot (pf : Platform) (N B : Type 0) : Type 0 where
  pub gps_uart : GpsUart pf
  pub pps : PpsDevice
  pub ui_feed : UiFeed (GpsSnapshot pf) N B
  pub rtc_present : Bool
  pub boot_rtc_unix : Option ℤ
  pub timezone : TimezoneBoot pf
  pub display : DisplayDevice
  pub storage : StorageDevice
  pub sd_log : Bool

-- The writer and the server of the log, where a card is mounted.
unfoldable pub start_log : BootAnswers → Bool → Startup Text Bool
start_log r true = do platform r.sd_writer; platform r.log_server; pure true
start_log r false = pure false

module _ (pf : Platform) {N B : Type 0} (no_ntp : N) (no_battery : B) where
  -- `GpsSnapshot::default()` with an offset.
  abbrev pub boot_snapshot : ℤ → GpsSnapshot pf
  boot_snapshot tz_offset_hours = record {
    local_date = [];
    local_time = [];
    tz_offset_hours = tz_offset_hours;
    utc_unix_seconds = none;
    lat = pf.lit32 0;
    lon = pf.lit32 0;
    fix = false;
    sats = 0;
    altitude_m = none;
  }

  abbrev pub boot_uart : GpsSnapshot pf → GpsUart pf
  unfolding set_snapshot
  boot_uart gps =
      set_snapshot gps
        (record { snapshot = boot_snapshot (pos 0); line_buf = []; bytes_seen = 0; calls = [] })

  -- The feed as the tasks find it.
  unfoldable pub boot_feed :
      RtcDevice → GpsSnapshot pf → StorageStatus → UiFeed (GpsSnapshot pf) N B
  unfolding new_feed publish_rtc publish_gps
  boot_feed rtc gps status =
      let feed = new_feed (boot_snapshot (pos 0)) no_ntp no_battery status in
      publish_gps gps (
        if rtc.present
        then publish_rtc (record { detected = true; utc_unix_seconds = rtc.boot_utc }) feed
        else feed)

  -- The board with its devices, its clock chip and its zone.
  unfoldable pub board_with :
      RtcDevice
      → TimezoneBoot pf
      → PpsDevice
      → DisplayDevice
      → StorageDevice
      → Bool
      → BoardBoot pf N B
  unfolding boot_feed
  board_with rtc tz pps display storage sd_log = record {
    gps_uart = boot_uart (boot_snapshot tz.tz_offset_hours);
    pps = pps;
    ui_feed = boot_feed rtc (boot_snapshot tz.tz_offset_hours) storage.status;
    rtc_present = rtc.present;
    boot_rtc_unix = rtc.boot_utc;
    timezone = tz;
    display = display;
    storage = storage;
    sd_log = sd_log;
  }

  -- `load` is what the caches give for the time of the chip.
  unfoldable pub boot :
      WifiCredentials → BootAnswers → (Option ℤ → TimezoneBoot pf) → Startup Text (BoardBoot pf N B)
  unfolding connect_wifi_sta init_uart init_pps init_display_device init_bus start_storage start_log
      init_panel board_with
  boot creds r load = do
    platform r.peripherals
    platform r.nvs
    platform r.event_loop
    platform (connect_wifi_sta r.wifi creds).1
    init_uart r.uart
    pps ← init_pps r.pps
    display ← init_display_device r.display
    init_bus r.i2c
    storage ← start_storage r.guard r.primary r.alternate
    sd_log ← start_log r storage.status.mounted
    panel ← init_panel r.panel display
    platform r.ui_task
    pure (board_with r.rtc (load r.rtc.boot_utc) pps panel storage sd_log)

module _ (fl : Floats) where
  abbrev pub seeded : Option ℤ → ℤ → NtpServer fl → NtpServer fl
  unfolding seed_utc_seconds
  seeded none now_us s = s
  seeded (some secs) now_us s = seed_utc_seconds secs now_us s

  -- `init_ntp_server`, once the socket is bound, with the setting of the allowlist, the time of the
  -- clock chip, and the clock at the seed.
  unfoldable pub init_ntp_server : Text → Option ℤ → ℤ → NtpServer fl
  unfolding from_socket apply_boot_acl seed_utc_seconds
  init_ntp_server acl_cidr boot_rtc_unix now_us =
      seeded boot_rtc_unix now_us (apply_boot_acl acl_cidr (from_socket fl))
