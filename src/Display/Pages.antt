-- ===== src/Display/Pages.antt =====
-- The lines of the pages, `draw_page` of src/display.rs. What the platform tells of its memory and its
-- partition are arguments; the clearing before and the drawing of a text are the viewport's.
pub mod Fits
use rust_gps_ntp.Common.{
  ℕ, ◌+◌, ◌*◌, Bool, true, false, Option, none, some, List, [], ◌∷◌, ◌++◌, if◌then◌else◌,
}
use rust_gps_ntp.Common.Int.{ℤ, pos}
use rust_gps_ntp.Ntp.Packet.{codes, DisciplineState, locked, holdover, unsync}
use rust_gps_ntp.Ntp.Float.{Floats}
use rust_gps_ntp.Ntp.Params.{NtpSnapshot}
use rust_gps_ntp.Protection.Cidr.{Text}
use rust_gps_ntp.Gps.Sentences.{Platform, GpsSnapshot}
use rust_gps_ntp.Battery.{BatterySnapshot}
use rust_gps_ntp.Storage.{StorageStatus}
use rust_gps_ntp.Ui.Feed.{RtcSnapshot}
use rust_gps_ntp.Wifi.{NetworkSnapshot}
use rust_gps_ntp.Display.{Page}
use rust_gps_ntp.Display.Labels.{
  Formats, print_u64, print_signed, format_human_bytes, format_unsigned_us, pps_offset_label,
  gps_use_rtc_fallback, display_time_source, rtc_local_strings,
}

-- The free heap, its minimum so far, and the size of the running partition, if there is one.
pub record SystemReadings : Type 0 where
  pub free_heap : ℕ
  pub min_heap : ℕ
  pub partition : Option ℕ

-- What is shown.
pub record PageData (pf : Platform) (fl : Floats) : Type 0 where
  pub zone : Option pf.Zone
  pub gps : GpsSnapshot pf
  pub battery : BatterySnapshot fl
  pub pps_delta_us : ℕ
  pub ntp : NtpSnapshot fl
  pub storage : StorageStatus
  pub rtc : RtcSnapshot
  pub network : NetworkSnapshot
  pub system : SystemReadings

abbrev pub state_str : DisciplineState → Text
state_str locked = codes "LOCKED"
state_str holdover = codes "HOLDOVER"
state_str unsync = codes "UNSYNC"

abbrev pub partition_bytes : Option ℕ → ℕ
partition_bytes none = 0
partition_bytes (some size) = size

abbrev pub time_lines : Text × Text → List Text
time_lines (time, date) = (codes "Time:  " ++ time) ∷ (codes "Date:  " ++ date) ∷ []

module _ {pf : Platform} {fl : Floats} (ft : Formats pf fl) where
  unfoldable pub time_page : PageData pf fl → List Text
  unfolding display_time_source pps_offset_label
  time_page d =
      let source : (Text × Text) × Bool = display_time_source ft d.zone d.gps d.rtc in
      codes "Page 1/6  TIME"
      ∷ ((if source.1 then codes "RTC fallback" ∷ [] else [])
          ++ (time_lines source.0
              ++ ((codes "TZ:    " ++ (print_signed d.gps.tz_offset_hours ++ codes "h"))
                  ∷ pps_offset_label ft d.pps_delta_us
                  ∷ [])))

  abbrev pub altitude_line : Option pf.F32 → Text
  altitude_line none = codes "Alt: n/a"
  altitude_line (some alt) = codes "Alt: " ++ (ft.metres1 alt ++ codes " m")

  unfoldable pub location_page : PageData pf fl → List Text
  unfolding display_time_source gps_use_rtc_fallback
  location_page d =
      codes "Page 2/6  LOCATION"
      ∷ (if gps_use_rtc_fallback ft d.gps
          then codes "RTC fallback" ∷ time_lines (display_time_source ft d.zone d.gps d.rtc).0
          else (codes "Lat: " ++ ft.degrees6 d.gps.lat)
            ∷ (codes "Lon: " ++ ft.degrees6 d.gps.lon)
            ∷ altitude_line d.gps.altitude_m
            ∷ (codes "Sats: " ++ print_u64 d.gps.sats)
            ∷ [])

  unfoldable pub resources_page : PageData pf fl → List Text
  unfolding format_human_bytes
  resources_page d =
      codes "Page 3/6  RESOURCES"
      ∷ ((if d.storage.mounted
            then (codes "SD free: " ++ format_human_bytes ft d.storage.free_bytes)
              ∷ (codes "SD total: " ++ format_human_bytes ft d.storage.total_bytes)
              ∷ []
            else codes "SD: not mounted"
              ∷ (codes "App part: " ++ format_human_bytes ft (partition_bytes d.system.partition))
              ∷ [])
          ++ ((codes "Heap free: " ++ format_human_bytes ft d.system.free_heap)
              ∷ (codes "Heap min: " ++ format_human_bytes ft d.system.min_heap)
              ∷ []))

  unfoldable pub battery_page : PageData pf fl → List Text
  unfolding rtc_local_strings
  battery_page d =
      codes "Page 4/6  BATT & RTC"
      ∷ (codes "Voltage: " ++ (ft.volts3 d.battery.voltage_v ++ codes " V"))
      ∷ (codes "Charge:  " ++ (ft.percent1 d.battery.percent ++ codes " %"))
      ∷ time_lines (rtc_local_strings ft d.zone d.rtc d.gps.tz_offset_hours)

  -- The processing time, of at least a microsecond, once there is a sample.
  abbrev pub proc_label : NtpSnapshot fl → Text
  unfolding format_unsigned_us
  proc_label ntp =
      if ntp.snapshot_delay_has_sample
      then format_unsigned_us ft
          (ft.to_u32 (fl.max32 (ft.round32 ntp.snapshot_proc_delay_us) (fl.lit32 (pos 1) 0)))
      else codes "n/a"

  unfoldable pub ntp_page : PageData pf fl → List Text
  unfolding format_unsigned_us
  ntp_page d =
      codes "Page 5/6  NTP"
      ∷ (codes "Str:"
          ++ (print_u64 d.ntp.snapshot_stratum ++ (codes " " ++ state_str d.ntp.snapshot_state)))
      ∷ (codes "Freq:" ++ (ft.signed3 d.ntp.snapshot_freq_ppm ++ codes " ppm"))
      ∷ (codes "Jit:"
          ++ (format_unsigned_us ft (ft.to_u32 (ft.round32 d.ntp.snapshot_jitter_us))
              ++ (codes "  disp:" ++ (ft.fixed1 d.ntp.snapshot_root_disp_ms ++ codes "ms"))))
      ∷ (codes "Proc:"
          ++ (proc_label d.ntp
              ++ (codes "  srv:"
                  ++ (print_u64 d.ntp.snapshot_served
                      ++ (codes " ko:" ++ print_u64 d.ntp.rate_limited)))))
      ∷ []

  abbrev pub network_page : PageData pf fl → List Text
  network_page d =
      codes "Page 6/6  NETWORK"
      ∷ (codes "IP:  " ++ d.network.ip)
      ∷ (codes "GW:  " ++ d.network.gateway)
      ∷ (codes "Host: " ++ d.network.hostname)
      ∷ (codes "SSID: " ++ d.network.ssid)
      ∷ []

  unfoldable pub page_lines : Page → PageData pf fl → List Text
  unfolding time_page location_page resources_page battery_page ntp_page
  page_lines Page.time d = time_page d
  page_lines Page.location d = location_page d
  page_lines Page.resources d = resources_page d
  page_lines Page.battery d = battery_page d
  page_lines Page.ntp d = ntp_page d
  page_lines Page.network d = network_page d

-- The lines with the heights of their baselines, from 20 on and 21 apart.
unfoldable pub place_lines : ℕ → List Text → List (ℕ × Text)
place_lines y [] = []
place_lines y (text ∷ texts) = (y, text) ∷ place_lines (y + 21) texts

module _ {pf : Platform} {fl : Floats} (ft : Formats pf fl) where
  unfoldable pub draw_page : Page → PageData pf fl → List (ℕ × Text)
  unfolding page_lines place_lines
  draw_page page d = place_lines 20 (page_lines ft page d)
