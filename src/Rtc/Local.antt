-- ===== src/Rtc/Local.antt =====
-- The local date and time of a second, `local_date_time_from_utc` of src/rtc.rs. chrono's calendar is
-- a parameter: the date and time of a second, where there is one; the year is not negative. A sum
-- beyond the calendar, at which the code panics, gives nothing.
use rust_gps_ntp.Common.{ℕ, Option, some, ◌∷◌, ◌++◌, ltb, if◌then◌else◌, ◌>>=◌}
use rust_gps_ntp.Common.Int.{ℤ, pos, ◌+ℤ◌, ◌*ℤ◌}
use rust_gps_ntp.Common.Decimal.{print_digits}
use rust_gps_ntp.Protection.Cidr.{Text}
use rust_gps_ntp.Rtc.{RtcDateTime}

-- `{:02}` and `{:04}`.
abbrev pub pad2 : ℕ → Text
pad2 n = if ltb n 10 then b'0' ∷ print_digits 10 n else print_digits 10 n

abbrev pub pad4 : ℕ → Text
pad4 n =
    if ltb n 100
    then b'0' ∷ b'0' ∷ pad2 n
    else if ltb n 1_000
    then b'0' ∷ print_digits 10 n
    else print_digits 10 n

abbrev pub date_text : RtcDateTime → Text
date_text dt = pad4 dt.year ++ (b'-' ∷ (pad2 dt.month ++ (b'-' ∷ pad2 dt.day)))

abbrev pub time_text : RtcDateTime → Text
time_text dt = pad2 dt.hour ++ (b':' ∷ (pad2 dt.minute ++ (b':' ∷ pad2 dt.second)))

unfoldable pub local_date_time_from_utc : (ℤ → Option RtcDateTime) → ℤ → ℤ → Option (Text × Text)
unfolding ◌+ℤ◌ ◌*ℤ◌
local_date_time_from_utc calendar utc tz_offset_hours = do
  dt ← calendar utc
  local ← calendar (utc +ℤ pos 3_600 *ℤ tz_offset_hours)
  some (date_text local, time_text local)
