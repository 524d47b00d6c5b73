-- ===== src/Rtc/Chip.antt =====
-- The clock chip on the I2C bus, src/rtc.rs. The driver of the bus is a parameter, and so are the
-- calendar's conversions to and from Unix seconds.
pub mod Stopping
use Prim.Native.Nat.{bit_and, bit_or}
use rust_gps_ntp.Common.{
  ℕ, ◌-◌, Bool, true, false, Option, none, some, List, [], ◌∷◌, if◌then◌else◌, ◌>>=◌,
}
use rust_gps_ntp.Common.Words.{u8}
use rust_gps_ntp.Common.Int.{ℤ}
use rust_gps_ntp.Ntp.Bytes.{Buffer, byte_at}
use rust_gps_ntp.I2c.{I2cDriver, write, write_read}
use rust_gps_ntp.Rtc.{RtcDateTime, decode_datetime_regs, encode_datetime_regs}

abbrev pub pcf8523_addr : ℕ
pcf8523_addr = 104

abbrev pub stop_bit : ℕ
stop_bit = 32

abbrev pub stop_of : ℕ → ℕ
stop_of control = bit_or control stop_bit

-- `control & !STOP_BIT`, of a byte.
abbrev pub run_of : ℕ → ℕ
run_of control = bit_and control (255 - stop_bit)

pub record RtcDevice : Type 0 where
  pub present : Bool
  pub boot_utc : Option ℤ

module _ {B : Type 0} (bus : I2cDriver B) where
  abbrev pub detect : B → Bool × B
  detect b =
      let control = write_read bus pcf8523_addr (0 ∷ []) 1 b in
      (elim control.0 [ none ↦ false | some regs ↦ true ], control.1)

  -- A write that is made if all went well so far.
  abbrev pub then_write : Buffer → Bool × B → Bool × B
  then_write bytes (false, b) = (false, b)
  then_write bytes (true, b) = write bus pcf8523_addr bytes b

  abbrev pub init_chip : B → Bool × B
  init_chip b =
      then_write (2 ∷ 0 ∷ []) (then_write (1 ∷ 0 ∷ []) (write bus pcf8523_addr (0 ∷ 0 ∷ []) b))

  abbrev pub read_datetime : B → Option RtcDateTime × B
  read_datetime b =
      let regs = write_read bus pcf8523_addr (3 ∷ []) 7 b in
      (regs.0 >>= decode_datetime_regs, regs.1)

  -- The time is written, and the clock is started again whether or not that succeeds.
  abbrev pub set_and_run : ℕ → RtcDateTime → B → Bool × B
  set_and_run control dt b =
      let written = write bus pcf8523_addr (3 ∷ encode_datetime_regs dt) b in
      let restarted = write bus pcf8523_addr (0 ∷ run_of control ∷ []) written.1 in
      (written.0, restarted.1)

  abbrev pub after_stop : ℕ → RtcDateTime → Bool × B → Bool × B
  after_stop control dt (false, b) = (false, b)
  after_stop control dt (true, b) = set_and_run control dt b

  abbrev pub after_control : RtcDateTime → Option Buffer × B → Bool × B
  after_control dt (none, b) = (false, b)
  after_control dt (some regs, b) =
      let control = u8 (byte_at 0 regs) in
      after_stop control dt (write bus pcf8523_addr (0 ∷ stop_of control ∷ []) b)

  unfoldable pub write_datetime : RtcDateTime → B → Bool × B
  write_datetime dt b = after_control dt (write_read bus pcf8523_addr (0 ∷ []) 1 b)

  abbrev pub write_fields : Option RtcDateTime → B → Bool × B
  unfolding write_datetime
  write_fields none b = (false, b)
  write_fields (some dt) b = write_datetime dt b

  abbrev pub write_unix_seconds : (ℤ → Option RtcDateTime) → ℤ → B → Bool × B
  write_unix_seconds unix_seconds_to_datetime unix_seconds b =
      write_fields (unix_seconds_to_datetime unix_seconds) b

  abbrev pub read_unix_seconds : (RtcDateTime → Option ℤ) → B → Option ℤ × B
  read_unix_seconds datetime_to_unix_seconds b =
      let dt = read_datetime b in (dt.0 >>= datetime_to_unix_seconds, dt.1)

  -- What is read at boot, from a chip that answers; an error of its set-up is only logged.
  unfoldable pub init : (RtcDateTime → Option ℤ) → B → RtcDevice × B
  init datetime_to_unix_seconds b =
      let found = detect b in
      let read = read_unix_seconds datetime_to_unix_seconds (init_chip found.1).1 in
      if found.0
      then (record { present = true; boot_utc = read.0 }, read.1)
      else (record { present = false; boot_utc = none }, found.1)
