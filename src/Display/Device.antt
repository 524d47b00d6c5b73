-- ===== src/Display/Device.antt =====
-- The start of the screen, `DisplayDevice` of src/display.rs. What the platform's calls answer are
-- arguments; the devices themselves are not kept.
use rust_gps_ntp.Common.{ℕ, Bool, true, false, List, [], ◌∷◌, if◌then◌else◌}
use rust_gps_ntp.Common.Int.{pos}
use rust_gps_ntp.Protection.Cidr.{Text}
use rust_gps_ntp.Ntp.Packet.{codes}
use rust_gps_ntp.Pins.{PinPool, release_pin}
use rust_gps_ntp.Pins.Startup.{Startup, ◌>>◌, pure, take_pin, platform}

abbrev pub display_name : Text
display_name = codes "display"

-- Whether the TFT's SPI device is still there to be moved into the panel's driver, and whether the
-- panel has been started.
pub record DisplayDevice : Type 0 where
  pub tft_spi : Bool
  pub panel_claimed : Bool

-- What the calls of the start answer: the power pin as an output and its level, the bus, the device.
pub record BusAnswers : Type 0 where
  pub power_output : Bool
  pub power_high : Bool
  pub spi_bus : Bool
  pub spi_device : Bool

-- What the calls of the panel's start answer; an error of its backlight is only logged there.
pub record PanelAnswers : Type 0 where
  pub dc : Bool
  pub rst : Bool
  pub backlight : Bool
  pub button : Bool
  pub backlight_level : Bool
  pub panel : Bool
  pub orientation : Bool

unfoldable pub enable_power : BusAnswers → Startup Text (Unit {0})
enable_power r = do platform r.power_output; platform r.power_high

unfoldable pub init_display_device : BusAnswers → Startup Text DisplayDevice
unfolding enable_power
init_display_device r = do
  take_pin display_name 21
  take_pin display_name 36
  take_pin display_name 35
  take_pin display_name 37
  enable_power r
  platform r.spi_bus
  take_pin display_name 7
  platform r.spi_device
  pure (record { tft_spi = true; panel_claimed = false })

unfoldable pub init_display : PanelAnswers → Startup Text (Unit {0})
init_display r = do platform r.panel; platform r.orientation

-- The device that is left.
unfoldable pub init_panel : PanelAnswers → DisplayDevice → Startup Text DisplayDevice
unfolding init_display
init_panel r d = do
  platform d.tft_spi
  take_pin display_name 39
  take_pin display_name 40
  take_pin display_name 45
  take_pin display_name 0
  platform r.dc
  platform r.rst
  platform r.backlight
  platform r.button
  platform r.backlight_level
  init_display r
  pure (record { tft_spi = false; panel_claimed = true })

abbrev pub release_all : List ℕ → PinPool Text → PinPool Text
release_all [] p = p
release_all (n ∷ ns) p = release_all ns (release_pin (pos n) p)

abbrev pub panel_pins : List ℕ
panel_pins = 0 ∷ 39 ∷ 40 ∷ 45 ∷ []

unfoldable pub close_display : DisplayDevice → PinPool Text → PinPool Text
unfolding release_pin
close_display d p =
    release_all (7 ∷ 21 ∷ 36 ∷ 35 ∷ 37 ∷ [])
      (if d.panel_claimed then release_all panel_pins p else p)
