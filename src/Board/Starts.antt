-- ===== src/Board/Starts.antt =====
-- When the board starts, src/board.rs.
use rust_gps_ntp.Common.{
  ◌≡◌, ap, sym, ◌∙◌, Bool, true, false, [], not, ◌&&◌, ◌||◌, if◌then◌else◌, arith,
}
use rust_gps_ntp.Protection.Cidr.{Text}
use rust_gps_ntp.Pins.{from_board_pins, new}
use rust_gps_ntp.Pins.Startup.{Started, started, failed}
use rust_gps_ntp.Pins.Startup.Runs.{
  AllFree, Runs, then-Runs, Runs-same, platform-Runs, pure-Runs, bind-Runs,
}
use rust_gps_ntp.Pps.Device.{new_device}
use rust_gps_ntp.Common.{Option}
use rust_gps_ntp.Common.Int.{ℤ}
use rust_gps_ntp.Gps.Sentences.{Platform}
use rust_gps_ntp.Timezone.Cache.{TimezoneBoot}
use rust_gps_ntp.Board.{BootAnswers, BoardBoot, board_with, boot}
use rust_gps_ntp.Wifi.{WifiCredentials, connect_wifi_sta}
use rust_gps_ntp.Board.Devices.{
  board_pins, input_ok, bus_ok, panel_ok, panel_device, init_uart-Runs, init_bus-Runs,
  init_pps-Runs, init_display_device-Runs, init_panel-Runs, start_log-Runs,
}
use rust_gps_ntp.Board.Card.{device_of, start_storage-Runs}

-- Whether every call of the platform that the start makes succeeds; the log is started only for a
-- card that is mounted.
abbrev pub all_ok : WifiCredentials → BootAnswers → Bool
all_ok creds r =
    let card = device_of r.guard r.primary r.alternate in
    r.peripherals
    && r.nvs
    && r.event_loop
    && (connect_wifi_sta r.wifi creds).1
    && r.uart
    && input_ok r.pps
    && bus_ok r.display
    && r.i2c
    && (not card.status.mounted || (r.sd_writer && r.log_server))
    && panel_ok r.panel
    && r.ui_task

-- The conditions of the parts are those of the whole.
same_ok :
    (a b c d e f g h i j k : Bool)
    → (a && (b && (c && (d && (e && (f && (g && (h && (true && (i && (j && (k && true))))))))))))
      ≡ (a && b && c && d && e && f && g && h && i && j && k)
same_ok a b c d e f g h i j k = ground arith

board_pins-AllFree : AllFree board_pins (from_board_pins {O = Text})
unfolding from_board_pins new
board_pins-AllFree = ground arith

module _ (pf : Platform) {N B : Type 0} (no_ntp : N) (no_battery : B) where
  -- The board after a start in which nothing fails.
  abbrev pub board_of : BootAnswers → (Option ℤ → TimezoneBoot pf) → BoardBoot pf N B
  unfolding board_with
  board_of r load =
      let card = device_of r.guard r.primary r.alternate in
      board_with pf no_ntp no_battery r.rtc (load r.rtc.boot_utc) new_device panel_device card
        card.status.mounted

  boot-Runs :
      (creds : WifiCredentials) (r : BootAnswers) (load : Option ℤ → TimezoneBoot pf)
      → Runs
          (boot pf no_ntp no_battery creds r load)
          (all_ok creds r)
          (board_of r load)
          board_pins
          []
  unfolding boot
  boot-Runs creds r load =
      let card = device_of r.guard r.primary r.alternate in
      Runs-same
        (then-Runs platform-Runs (
          then-Runs platform-Runs (
            then-Runs platform-Runs (
              then-Runs platform-Runs (
                then-Runs (init_uart-Runs r.uart) (
                  bind-Runs _ (init_pps-Runs r.pps) (
                    bind-Runs _ (init_display_device-Runs r.display) (
                      then-Runs (init_bus-Runs r.i2c) (
                        bind-Runs _ (start_storage-Runs r.guard r.primary r.alternate) (
                          bind-Runs _ (start_log-Runs r card.status.mounted) (
                            bind-Runs _ (init_panel-Runs r.panel)
                              (then-Runs platform-Runs pure-Runs))))))))))))
        (same_ok r.peripherals r.nvs r.event_loop (connect_wifi_sta r.wifi creds).1 r.uart
          (input_ok r.pps) (bus_ok r.display) r.i2c
          (not card.status.mounted || (r.sd_writer && r.log_server)) (panel_ok r.panel) r.ui_task)

  -- On the board's own pins a start never fails for the want of a pin: whatever the card does, it ends
  -- with all devices exactly if the platform's calls succeed, and else with an error of the platform.
  pub boot-starts :
      (creds : WifiCredentials) (r : BootAnswers) (load : Option ℤ → TimezoneBoot pf)
      → (boot pf no_ntp no_battery creds r load from_board_pins).0
        ≡ (if all_ok creds r then started (board_of r load) else failed)
  boot-starts creds r load = ((boot-Runs creds r load).apply from_board_pins board_pins-AllFree).0

  -- What a started board holds of the pulse input: no pulse yet.
  started-pps_of :
      (ok : Bool) (r : BootAnswers) (load : Option ℤ → TimezoneBoot pf) (board : BoardBoot pf N B)
      → ◌≡◌ {A = Started Text (BoardBoot pf N B)}
          (started board)
          (if ok then started (board_of r load) else failed)
      → board.pps ≡ new_device
  unfolding board_with
  started-pps_of true r load board h =
      let same : board ≡ board_of r load = cc in ap (λ (b : BoardBoot pf N B). b.pps) same
  started-pps_of false r load board h = cc

  pub started-pps :
      (creds : WifiCredentials) (r : BootAnswers) (load : Option ℤ → TimezoneBoot pf)
      (board : BoardBoot pf N B)
      → (boot pf no_ntp no_battery creds r load from_board_pins).0 ≡ started board
      → board.pps ≡ new_device
  started-pps creds r load board h =
      started-pps_of (all_ok creds r) r load board (sym h ∙ boot-starts creds r load)
