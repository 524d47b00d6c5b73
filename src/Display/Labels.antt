-- ===== src/Display/Labels.antt =====
-- The texts of the pages' values, src/display.rs. Formats of floating-point numbers and of chrono are
-- a parameter.
use rust_gps_ntp.Common.{
  ℕ, zero, suc, ◌+◌, Bool, true, false, Option, none, some, [], ◌∷◌, ◌++◌, ◌||◌, ◌&&◌, not, ltb,
  ◌==◌, reverse, if◌then◌else◌, ◌>>=◌,
}
use rust_gps_ntp.Common.Int.{ℤ, pos, negsuc, ◌-ℤ◌, nat_abs, max_ℤ}
use rust_gps_ntp.Common.Decimal.{print_digits}
use rust_gps_ntp.Ntp.Packet.{codes}
use rust_gps_ntp.Ntp.Float.{Floats}
use rust_gps_ntp.Protection.Cidr.{Text}
use rust_gps_ntp.Gps.Sentences.{Platform, GpsSnapshot}
use rust_gps_ntp.App.{offset_in}
use rust_gps_ntp.Ui.Feed.{RtcSnapshot}
use rust_gps_ntp.Rtc.{RtcDateTime}
use rust_gps_ntp.Rtc.Local.{local_date_time_from_utc}

-- What the standard library and chrono print: `{:.6}` and `{:.1}` of the receiver's numbers, `{:.3}`
-- and `{:.1}` of the battery's, `{:.1}` and `{:+.3}` of an `f64`, `round` of an `f32` and
-- `as u32`; a second as date and time in a zone, and the calendar's fields of a second, if there is a
-- date for it.
pub record Formats (pf : Platform) (fl : Floats) : Type 0 where
  pub degrees6 : pf.F32 → Text
  pub metres1 : pf.F32 → Text
  pub volts3 : fl.F32 → Text
  pub percent1 : fl.F32 → Text
  pub fixed1 : fl.F64 → Text
  pub signed3 : fl.F64 → Text
  pub round32 : fl.F32 → fl.F32
  pub to_u32 : fl.F32 → ℕ
  pub in_zone_text : pf.Zone → ℤ → Option (Text × Text)
  pub calendar : ℤ → Option RtcDateTime

-- A number of 64 bits has at most twenty digits.
abbrev pub print_u64 : ℕ → Text
print_u64 n = print_digits 20 n

-- `{:+}`.
abbrev pub print_signed : ℤ → Text
print_signed (pos n) = b'+' ∷ print_u64 n
print_signed (negsuc n) = b'-' ∷ print_u64 (n + 1)

abbrev pub has_point : Text → Bool
has_point [] = false
has_point (c ∷ s) = c == b'.' || has_point s

-- The loop that takes zeros off the end of a text with a point in it; the text is in reverse.
unfoldable pub drop_zeros : Text → Text
drop_zeros [] = []
drop_zeros (c ∷ s) =
    let rest = drop_zeros s in if has_point (c ∷ s) && c == b'0' then rest else c ∷ s

abbrev pub drop_point : Text → Text
drop_point [] = []
drop_point (c ∷ s) = if c == b'.' then s else c ∷ s

unfoldable pub strip_zeros : Text → Text
unfolding drop_zeros
strip_zeros s = reverse (drop_point (drop_zeros (reverse s)))

abbrev pub unit_of : ℕ → Text
unit_of zero = codes "B"
unit_of (suc zero) = codes "K"
unit_of (suc (suc zero)) = codes "M"
unit_of (suc (suc (suc zero))) = codes "G"
unit_of (suc (suc (suc (suc n)))) = codes "T"

module _ {pf : Platform} {fl : Floats} (ft : Formats pf fl) where
  -- The loop over the units, with the units that are left.
  unfoldable pub scale : ℕ → fl.F64 → ℕ → fl.F64 × ℕ
  scale zero value unit_idx = (value, unit_idx)
  scale (suc left) value unit_idx =
      let rest = scale left (fl.div value (fl.lit (pos 1024) 0)) (unit_idx + 1) in
      if fl.le (fl.lit (pos 1024) 0) value then rest else (value, unit_idx)

  abbrev pub human_text : ℕ → fl.F64 × ℕ → Text
  human_text bytes (value, unit_idx) =
      (if unit_idx == 0 then print_u64 bytes else ft.fixed1 value) ++ unit_of unit_idx

  unfoldable pub format_human_bytes : ℕ → Text
  unfolding scale
  format_human_bytes bytes = human_text bytes (scale 4 (fl.of_int (pos bytes)) 0)

  unfoldable pub format_signed_offset_us : ℤ → Text
  unfolding strip_zeros
  format_signed_offset_us offset_us =
      if ltb (nat_abs offset_us) 1_000
      then print_signed offset_us ++ codes "us"
      else strip_zeros (ft.signed3 (fl.div (fl.of_int offset_us) (fl.lit (pos 1000) 0)))
        ++ codes "ms"

  unfoldable pub format_unsigned_us : ℕ → Text
  unfolding strip_zeros
  format_unsigned_us value_us =
      if ltb value_us 1_000
      then print_u64 value_us ++ codes "us"
      else strip_zeros (fl.format3 (fl.div (fl.of_int (pos value_us)) (fl.lit (pos 1000) 0)))
        ++ codes "ms"

  unfoldable pub pps_offset_label : ℕ → Text
  unfolding format_signed_offset_us
  pps_offset_label pps_delta_us =
      if pps_delta_us == 0
      then codes "PPS: n/a"
      else codes "PPS: " ++ format_signed_offset_us (pos pps_delta_us -ℤ pos 1_000_000)

  -- `local_from_utc_unix` of src/gps.rs, in the zone that is in force.
  unfoldable pub local_from_utc_unix : Option pf.Zone → ℤ → Option (Text × Text)
  local_from_utc_unix zone utc = do tz ← zone; ft.in_zone_text tz utc

  abbrev pub or_offset : Option (Text × Text) → Option (Text × Text) → Option (Text × Text)
  or_offset (some text) other = some text
  or_offset none other = other

  -- The date and the time of a second: in the zone, or else with the greater of the two offsets.
  unfoldable pub local_text : Option pf.Zone → ℤ → ℤ → Option (Text × Text)
  unfolding local_from_utc_unix local_date_time_from_utc
  local_text zone tz_offset_hours utc =
      or_offset (local_from_utc_unix zone utc)
        (local_date_time_from_utc ft.calendar utc (max_ℤ (offset_in pf zone utc) tz_offset_hours))

  abbrev pub time_and_date : Option (Text × Text) → Text × Text
  time_and_date (some (date, time)) = (time, date)
  time_and_date none = (codes "n/a", codes "n/a")

  unfoldable pub gps_use_rtc_fallback : GpsSnapshot pf → Bool
  gps_use_rtc_fallback gps = not gps.fix || gps.sats == 0

  -- The time and the date that are shown, and whether they are the clock chip's.
  unfoldable pub display_time_source :
      Option pf.Zone → GpsSnapshot pf → RtcSnapshot → (Text × Text) × Bool
  unfolding gps_use_rtc_fallback local_text
  display_time_source zone gps rtc =
      if gps_use_rtc_fallback gps
      then (
        time_and_date (do utc ← rtc.utc_unix_seconds; local_text zone gps.tz_offset_hours utc),
        true,
      )
      else ((gps.local_time, gps.local_date), false)

  unfoldable pub rtc_local_strings : Option pf.Zone → RtcSnapshot → ℤ → Text × Text
  unfolding local_text
  rtc_local_strings zone rtc tz_offset_hours =
      if not rtc.detected
      then (codes "n/a", codes "n/a")
      else time_and_date (do utc ← rtc.utc_unix_seconds; local_text zone tz_offset_hours utc)
