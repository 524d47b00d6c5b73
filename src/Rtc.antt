-- ===== src/Rtc.antt =====
-- The time registers of the PCF8523 clock chip, src/rtc.rs.
pub mod Chip
pub mod Local
pub mod Registers
use Prim.Native.Nat.{bit_or}
use rust_gps_ntp.Common.{
  ℕ, ◌+◌, ◌*◌, ◌-◌, ◌/◌, ◌%◌, ◌^◌, min, Bool, true, false, Option, none, some, List, [], ◌∷◌, ◌&&◌,
  ◌||◌, not, leb, ltb, ◌==◌, if◌then◌else◌,
}
use rust_gps_ntp.Common.Words.{u8}
use rust_gps_ntp.Ntp.Bytes.{Buffer, byte_at}

abbrev pub min_valid_year : ℕ
min_valid_year = 2020

-- A year before 0 never gets here: the fields come from the chip or from Unix seconds.
pub record RtcDateTime : Type 0 where
  pub year : ℕ
  pub month : ℕ
  pub day : ℕ
  pub hour : ℕ
  pub minute : ℕ
  pub second : ℕ

unfoldable pub bcd_to_dec : ℕ → ℕ
bcd_to_dec byte = u8 (byte % 16 + byte / 2 ^ 4 % 16 * 10)

unfoldable pub dec_to_bcd : ℕ → ℕ
dec_to_bcd value = bit_or (u8 (value / 10 * 2 ^ 4)) (value % 10)

abbrev pub in_calendar : RtcDateTime → Bool
in_calendar dt =
    leb 1 dt.month
    && leb dt.month 12
    && leb 1 dt.day
    && leb dt.day 31
    && leb dt.hour 23
    && leb dt.minute 59
    && leb dt.second 59
    && leb min_valid_year dt.year

unfoldable pub fields_of : Buffer → RtcDateTime
unfolding bcd_to_dec
fields_of regs = record {
  year = 2000 + bcd_to_dec (byte_at 6 regs);
  month = bcd_to_dec (byte_at 5 regs % 32);
  day = bcd_to_dec (byte_at 3 regs % 64);
  hour = bcd_to_dec (byte_at 2 regs % 64);
  minute = bcd_to_dec (byte_at 1 regs % 128);
  second = bcd_to_dec (byte_at 0 regs % 128);
}

-- The top bit of the seconds says that the oscillator has stopped.
unfoldable pub decode_datetime_regs : Buffer → Option RtcDateTime
unfolding fields_of
decode_datetime_regs regs =
    if not (byte_at 0 regs / 2 ^ 7 % 2 == 0)
    then none
    else if in_calendar (fields_of regs)
    then some (fields_of regs)
    else none

unfoldable pub encode_datetime_regs : RtcDateTime → Buffer
unfolding dec_to_bcd
encode_datetime_regs dt =
    dec_to_bcd (u8 dt.second)
    ∷ dec_to_bcd (u8 dt.minute)
    ∷ dec_to_bcd (u8 dt.hour)
    ∷ dec_to_bcd (u8 dt.day)
    ∷ 1
    ∷ dec_to_bcd (u8 dt.month)
    ∷ dec_to_bcd (min (dt.year - 2000) 99)
    ∷ []
