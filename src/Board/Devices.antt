-- ===== src/Board/Devices.antt =====
-- How the devices of the board start on free pins, src/board.rs.
use rust_gps_ntp.Common.{ℕ, refl, Bool, true, false, List, [], ◌∷◌, not, ◌&&◌, ◌||◌, arith}
use rust_gps_ntp.Pins.Startup.Runs.{Runs, take-Runs, then-Runs, Runs-same, platform-Runs, pure-Runs}
use rust_gps_ntp.Gps.Uart.{init_uart}
use rust_gps_ntp.Pps.Device.{InputAnswers, init_pps, configure_interrupt, new_device}
use rust_gps_ntp.Display.Device.{
  BusAnswers, PanelAnswers, DisplayDevice, init_display_device, init_panel, enable_power,
  init_display,
}
use rust_gps_ntp.I2c.{init_bus}
use rust_gps_ntp.Board.{BootAnswers, start_log}

-- The pins that are still to be taken, in the order in which the devices start.
abbrev pub panel_pins : List ℕ
panel_pins = 39 ∷ 40 ∷ 45 ∷ 0 ∷ []

abbrev pub card_pins : List ℕ
card_pins = 10 ∷ 33 ∷ panel_pins

abbrev pub bus_pins : List ℕ
bus_pins = 42 ∷ 41 ∷ card_pins

abbrev pub screen_pins : List ℕ
screen_pins = 21 ∷ 36 ∷ 35 ∷ 37 ∷ 7 ∷ bus_pins

abbrev pub pulse_pins : List ℕ
pulse_pins = 12 ∷ screen_pins

abbrev pub board_pins : List ℕ
board_pins = 1 ∷ 2 ∷ pulse_pins

pub init_uart-Runs : (x : Bool) → Runs (init_uart x) x tt board_pins pulse_pins
unfolding init_uart
init_uart-Runs x = take-Runs _ refl (take-Runs _ refl platform-Runs)

pub init_bus-Runs : (x : Bool) → Runs (init_bus x) x tt bus_pins card_pins
unfolding init_bus
init_bus-Runs x = take-Runs _ refl (take-Runs _ refl platform-Runs)

-- Whether the calls of a start succeed.
abbrev pub input_ok : InputAnswers → Bool
input_ok r = r.input && (r.subscribe && (r.edge_kind && r.enable))

abbrev pub bus_ok : BusAnswers → Bool
bus_ok r = r.power_output && r.power_high && r.spi_bus && r.spi_device

abbrev pub panel_ok : PanelAnswers → Bool
panel_ok r =
    r.dc && r.rst && r.backlight && r.button && r.backlight_level && r.panel && r.orientation

configure_interrupt-Runs :
    (r : InputAnswers)
    → Runs
        (configure_interrupt r)
        (r.subscribe && (r.edge_kind && r.enable))
        tt
        screen_pins
        screen_pins
unfolding configure_interrupt
configure_interrupt-Runs r = then-Runs platform-Runs (then-Runs platform-Runs platform-Runs)

pub init_pps-Runs :
    (r : InputAnswers) → Runs (init_pps r) (input_ok r) new_device pulse_pins screen_pins
unfolding init_pps
init_pps-Runs r =
    Runs-same
      (take-Runs _ refl
        (then-Runs platform-Runs (then-Runs (configure_interrupt-Runs r) pure-Runs)))
      (ground arith)

abbrev pub bus_device : DisplayDevice
bus_device = record { tft_spi = true; panel_claimed = false }

abbrev pub panel_device : DisplayDevice
panel_device = record { tft_spi = false; panel_claimed = true }

enable_power-Runs :
    (r : BusAnswers) {ns : List ℕ} → Runs (enable_power r) (r.power_output && r.power_high) tt ns ns
unfolding enable_power
enable_power-Runs r = then-Runs platform-Runs platform-Runs

pub init_display_device-Runs :
    (r : BusAnswers) → Runs (init_display_device r) (bus_ok r) bus_device screen_pins bus_pins
unfolding init_display_device
init_display_device-Runs r =
    Runs-same
      (take-Runs _ refl (
        take-Runs _ refl (
          take-Runs _ refl (
            take-Runs _ refl (
              then-Runs (enable_power-Runs r) (
                then-Runs platform-Runs (take-Runs _ refl (then-Runs platform-Runs pure-Runs))))))))
      (ground arith)

init_display-Runs :
    (r : PanelAnswers) {ns : List ℕ} → Runs (init_display r) (r.panel && r.orientation) tt ns ns
unfolding init_display
init_display-Runs r = then-Runs platform-Runs platform-Runs

pub init_panel-Runs :
    (r : PanelAnswers) → Runs (init_panel r bus_device) (panel_ok r) panel_device panel_pins []
unfolding init_panel
init_panel-Runs r =
    Runs-same
      (then-Runs platform-Runs (
        take-Runs _ refl (
          take-Runs _ refl (
            take-Runs _ refl (
              take-Runs _ refl (
                then-Runs platform-Runs (
                  then-Runs platform-Runs (
                    then-Runs platform-Runs (
                      then-Runs platform-Runs (
                        then-Runs platform-Runs
                          (then-Runs (init_display-Runs r) pure-Runs)))))))))))
      (ground arith)

pub start_log-Runs :
    (r : BootAnswers) (mounted : Bool) {ns : List ℕ}
    → Runs (start_log r mounted) (not mounted || (r.sd_writer && r.log_server)) mounted ns ns
unfolding start_log
start_log-Runs r true =
    Runs-same (then-Runs platform-Runs (then-Runs platform-Runs pure-Runs)) (ground arith)
start_log-Runs r false = pure-Runs
