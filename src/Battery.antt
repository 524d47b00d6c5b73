-- ===== src/Battery.antt =====
-- The fuel gauges, src/battery.rs. The two-byte registers come over the I2C bus, whose driver is a
-- parameter.
use rust_gps_ntp.Common.{ℕ, ◌+◌, ◌*◌, Option, none, some, [], ◌∷◌}
use rust_gps_ntp.Common.Int.{pos}
use rust_gps_ntp.Ntp.Bytes.{Buffer, byte_at}
use rust_gps_ntp.Ntp.Float.{Floats}
use rust_gps_ntp.I2c.{I2cDriver, write_read}

pub data BatteryMonitor : Type 0 where
  max17048 : BatteryMonitor
  lc709203 : BatteryMonitor

abbrev pub addr_of : BatteryMonitor → ℕ
addr_of BatteryMonitor.max17048 = 54
addr_of BatteryMonitor.lc709203 = 11

module _ (fl : Floats) where
  pub record BatterySnapshot : Type 0 where
    pub voltage_v : fl.F32
    pub percent : fl.F32

  -- `u16::from_be_bytes` and `u16::from_le_bytes`, as `f32`.
  abbrev pub of_be : Buffer → fl.F32
  of_be bytes = fl.of_int32 (pos (byte_at 0 bytes * 256 + byte_at 1 bytes))

  abbrev pub of_le : Buffer → fl.F32
  of_le bytes = fl.of_int32 (pos (byte_at 1 bytes * 256 + byte_at 0 bytes))

  unfoldable pub decode_max17048_vcell : Buffer → fl.F32
  decode_max17048_vcell vcell = fl.mul32 (of_be vcell) (fl.lit32 (pos 78_125) 9)

  unfoldable pub decode_max17048_soc : Buffer → fl.F32
  decode_max17048_soc soc =
      fl.add32 (fl.of_int32 (pos (byte_at 0 soc)))
        (fl.div32 (fl.of_int32 (pos (byte_at 1 soc))) (fl.lit32 (pos 256) 0))

  unfoldable pub decode_lc709203_voltage_mv : Buffer → fl.F32
  decode_lc709203_voltage_mv vcell = of_le vcell

  unfoldable pub decode_lc709203_percent : Buffer → fl.F32
  decode_lc709203_percent rsoc = of_le rsoc

  -- The two registers of a gauge, and what is made of their bytes.
  abbrev pub snapshot_of : BatteryMonitor → Buffer → Buffer → BatterySnapshot
  unfolding decode_max17048_vcell decode_max17048_soc decode_lc709203_voltage_mv
      decode_lc709203_percent
  snapshot_of BatteryMonitor.max17048 vcell soc = record {
    voltage_v = decode_max17048_vcell vcell;
    percent = decode_max17048_soc soc;
  }
  snapshot_of BatteryMonitor.lc709203 vcell rsoc = record {
    voltage_v = fl.div32 (decode_lc709203_voltage_mv vcell) (fl.lit32 (pos 1000) 0);
    percent = decode_lc709203_percent rsoc;
  }

  abbrev pub reg_vcell : BatteryMonitor → ℕ
  reg_vcell BatteryMonitor.max17048 = 2
  reg_vcell BatteryMonitor.lc709203 = 9

  abbrev pub reg_soc : BatteryMonitor → ℕ
  reg_soc BatteryMonitor.max17048 = 4
  reg_soc BatteryMonitor.lc709203 = 13

  module _ {B : Type 0} (driver : I2cDriver B) where
    abbrev pub after_vcell : BatteryMonitor → Option Buffer × B → Option BatterySnapshot × B
    after_vcell monitor (none, b) = (none, b)
    after_vcell monitor (some vcell, b) =
        let soc = write_read driver (addr_of monitor) (reg_soc monitor ∷ []) 2 b in
        (elim soc.0 [ none ↦ none | some bytes ↦ some (snapshot_of monitor vcell bytes) ], soc.1)

    -- `read_max17048` or `read_lc709203`.
    unfoldable pub read_battery : BatteryMonitor → B → Option BatterySnapshot × B
    read_battery monitor b =
        after_vcell monitor (write_read driver (addr_of monitor) (reg_vcell monitor ∷ []) 2 b)

    abbrev pub second_try : Option BatterySnapshot × B → Option BatteryMonitor × B
    second_try (some reading, b) = (some BatteryMonitor.lc709203, b)
    second_try (none, b) = (none, b)

    abbrev pub first_try : Option BatterySnapshot × B → Option BatteryMonitor × B
    unfolding read_battery
    first_try (some reading, b) = (some BatteryMonitor.max17048, b)
    first_try (none, b) = second_try (read_battery BatteryMonitor.lc709203 b)

    unfoldable pub detect_monitor : B → Option BatteryMonitor × B
    unfolding read_battery
    detect_monitor b = first_try (read_battery BatteryMonitor.max17048 b)
