-- ===== src/I2c.antt =====
-- The I2C bus of the battery gauge and of the clock chip, src/i2c_bus.rs. The platform's driver is a
-- parameter; of an error only that it happens is kept.
use rust_gps_ntp.Common.{ℕ, Bool, Option}
use rust_gps_ntp.Common.Int.{pos}
use rust_gps_ntp.Protection.Cidr.{Text}
use rust_gps_ntp.Ntp.Packet.{codes}
use rust_gps_ntp.Pins.{PinPool, release_pin}
use rust_gps_ntp.Pins.Startup.{Startup, ◌>>◌, take_pin, platform}
use rust_gps_ntp.Ntp.Bytes.{Buffer}

-- The timeout of `I2cDevice`, which every device keeps.
abbrev pub timeout_ms : ℕ
timeout_ms = 50

-- A write of bytes to an address, which succeeds or not, and a write followed by a read of so many
-- bytes, over a state of the bus.
pub record I2cDriver (B : Type 0) : Type 0 where
  pub write : (addr : ℕ) (bytes : Buffer) (timeout_ms : ℕ) → B → Bool × B
  pub write_read : (addr : ℕ) (bytes : Buffer) (len timeout_ms : ℕ) → B → Option Buffer × B

module _ {B : Type 0} (driver : I2cDriver B) where
  -- The methods of `FeatherI2cBus`, for the device with an address.
  abbrev pub write : ℕ → Buffer → B → Bool × B
  write addr bytes b = driver.write addr bytes timeout_ms b

  abbrev pub write_read : ℕ → Buffer → ℕ → B → Option Buffer × B
  write_read addr bytes len b = driver.write_read addr bytes len timeout_ms b

abbrev pub i2c_name : Text
i2c_name = codes "i2c"

-- `FeatherI2cBus::init`, by whether the driver starts.
unfoldable pub init_bus : Bool → Startup Text (Unit {0})
init_bus driver_ok = do take_pin i2c_name 42; take_pin i2c_name 41; platform driver_ok

unfoldable pub close_bus : PinPool Text → PinPool Text
unfolding release_pin
close_bus p = release_pin (pos 41) (release_pin (pos 42) p)
