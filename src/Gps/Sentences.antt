-- ===== src/Gps/Sentences.antt =====
-- RMC and GGA sentences, src/gps.rs: what they do to the snapshot.
pub mod Applied
use rust_gps_ntp.Common.{
  ℕ, ◌+◌, ◌^◌, Bool, true, false, Option, none, some, List, [], ◌∷◌, ◌||◌, not, ltb, leb, length,
  get_or, if◌then◌else◌, ◌>>=◌,
}
use rust_gps_ntp.Common.Int.{ℤ, pos, ◌+ℤ◌}
use rust_gps_ntp.Protection.Cidr.{Text, split, parse_uint, parse_u8}
use rust_gps_ntp.Ntp.Packet.{codes}
use rust_gps_ntp.SdLog.Http.{eq_text}
use rust_gps_ntp.Gps.{
  nmea_checksum_valid, parse_hhmmss, parse_ddmmyy, pair_at, format_hhmmss, format_ddmmyy, parse_i32,
}

-- What the standard library and the `chrono` crates give: `f32` with its parser, its negation and the
-- rounding cast `round() as i8`; dates and times with the checks of their fields, the Unix seconds of
-- both, a shift by hours, the local time in a zone with the zone's offset in whole hours, the two
-- formats that the program uses, the zone of a name, and a zone's offset in whole hours at a Unix
-- second, if there is a date for that.
pub record Platform : Type 1 where
  pub F32 : Type 0
  pub parse_f32 : Text → Option F32
  pub lit32 : ℕ → F32
  pub add32 : F32 → F32 → F32
  pub sub32 : F32 → F32 → F32
  pub mul32 : F32 → F32 → F32
  pub div32 : F32 → F32 → F32
  pub neg32 : F32 → F32
  pub floor32 : F32 → F32
  pub round_to_i8 : F32 → ℤ
  pub Date : Type 0
  pub Time : Type 0
  pub Zone : Type 0
  pub from_ymd_opt : ℤ → ℕ → ℕ → Option Date
  pub from_hms_opt : ℕ → ℕ → ℕ → Option Time
  pub timestamp : Date → Time → ℤ
  pub add_hours : Date → Time → ℤ → Date × Time
  pub in_zone : Zone → Date → Time → Date × Time
  pub offset_hours : Zone → Date → Time → ℤ
  pub format_date : Date → Text
  pub format_time : Time → Text
  pub zone_of_name : Text → Option Zone
  pub offset_hours_at_unix : Zone → ℤ → Option ℤ

module _ (pf : Platform) where
  open pf use {
    F32, parse_f32, lit32, add32, sub32, mul32, div32, neg32, floor32, round_to_i8, Date, Time,
    Zone, from_ymd_opt, from_hms_opt, timestamp, add_hours, in_zone, offset_hours, format_date,
    format_time,
  }

  pub record GpsSnapshot : Type 0 where
    pub local_date : Text
    pub local_time : Text
    pub tz_offset_hours : ℤ
    pub utc_unix_seconds : Option ℤ
    pub lat : F32
    pub lon : F32
    pub fix : Bool
    pub sats : ℕ
    pub altitude_m : Option F32

  abbrev pub signed_by : Text → F32 → F32
  signed_by dir v = if eq_text dir (codes "S") || eq_text dir (codes "W") then neg32 v else v

  unfoldable pub nmea_to_decimal : Text → Text → Option F32
  nmea_to_decimal value dir = do
    raw ← parse_f32 value
    let degrees = floor32 (div32 raw (lit32 100))
    let minutes = sub32 raw (mul32 degrees (lit32 100))
    some (signed_by dir (add32 degrees (div32 minutes (lit32 60))))

  -- The zone is that of `configured_timezone`.
  unfoldable pub local_datetime_from_naive_utc : Option Zone → Date × Time → F32 → Text × Text × ℤ
  local_datetime_from_naive_utc (some zone) (date, time) lon =
      let local : Date × Time = in_zone zone date time in
      (format_date local.0, format_time local.1, offset_hours zone date time)
  local_datetime_from_naive_utc none (date, time) lon =
      let hours = round_to_i8 (div32 lon (lit32 15)) in
      let local : Date × Time = add_hours date time hours in
      (format_date local.0, format_time local.1, hours)

  unfoldable pub utc_datetime_from_fields : Text → Text → Option (Date × Time)
  unfolding parse_hhmmss parse_ddmmyy parse_i32 parse_uint ◌+ℤ◌
  utc_datetime_from_fields utc_date utc_time = do
    ddmmyy ← parse_ddmmyy utc_date
    hhmmss ← parse_hhmmss utc_time
    day ← parse_uint (2 ^ 32) (pair_at 0 ddmmyy)
    month ← parse_uint (2 ^ 32) (pair_at 2 ddmmyy)
    yy ← parse_i32 (pair_at 4 ddmmyy)
    hour ← parse_uint (2 ^ 32) (pair_at 0 hhmmss)
    minute ← parse_uint (2 ^ 32) (pair_at 2 hhmmss)
    second ← parse_uint (2 ^ 32) (pair_at 4 hhmmss)
    date ← from_ymd_opt (pos 2000 +ℤ yy) month day
    time ← from_hms_opt hour minute second
    some (date, time)

  abbrev pub field : List Text → ℕ → Text
  field fields i = get_or fields i []

  -- The position, where both of its parts can be read.
  abbrev pub set_position : Option F32 → Option F32 → GpsSnapshot → GpsSnapshot
  set_position (some lat) (some lon) g = record g { lat = lat; lon = lon }
  set_position _ _ g = g

  abbrev pub local_or_raw : Option Zone → Option (Date × Time) → Text → Text → F32 → Text × Text × ℤ
  local_or_raw tz none date time lon = (format_ddmmyy date, format_hhmmss time, pos 0)
  local_or_raw tz (some utc) date time lon = local_datetime_from_naive_utc tz utc lon

  abbrev pub unix_of : Option (Date × Time) → Option ℤ
  unix_of none = none
  unix_of (some (date, time)) = some (timestamp date time)

  -- What a sentence with these time, status and date fields stores.
  unfoldable pub apply_rmc : Option Zone → List Text → Text → Text → GpsSnapshot → GpsSnapshot
  unfolding nmea_to_decimal local_datetime_from_naive_utc utc_datetime_from_fields format_hhmmss
      format_ddmmyy
  apply_rmc zone fields time date g =
      let fixed : GpsSnapshot = record g { fix = eq_text (field fields 2) (codes "A") } in
      let placed : GpsSnapshot =
        set_position (nmea_to_decimal (field fields 3) (field fields 4))
          (nmea_to_decimal (field fields 5) (field fields 6)) fixed in
      let utc = utc_datetime_from_fields date time in
      let local : Text × Text × ℤ = local_or_raw zone utc date time placed.lon in
      record placed {
        local_date = local.0;
        local_time = local.1;
        tz_offset_hours = local.2;
        utc_unix_seconds = unix_of utc;
      }

  unfoldable pub parse_rmc : Option Zone → Text → GpsSnapshot → Option GpsSnapshot
  unfolding apply_rmc nmea_checksum_valid split parse_hhmmss parse_ddmmyy
  parse_rmc zone sentence g =
      let fields = split b',' sentence in
      if not (nmea_checksum_valid sentence)
      then none
      else if ltb (length fields) 10
      then none
      else (do
        time ← parse_hhmmss (field fields 1)
        date ← parse_ddmmyy (field fields 9)
        some (apply_rmc zone fields time date g))

  abbrev pub set_altitude : List Text → GpsSnapshot → GpsSnapshot
  set_altitude fields g =
      if leb 10 (length fields) then record g { altitude_m = parse_f32 (field fields 9) } else g

  unfoldable pub parse_gga : Text → GpsSnapshot → Option GpsSnapshot
  unfolding nmea_checksum_valid split parse_uint
  parse_gga sentence g =
      let fields = split b',' sentence in
      if not (nmea_checksum_valid sentence)
      then none
      else if ltb (length fields) 8
      then none
      else (do
        sats ← parse_u8 (field fields 7)
        some (set_altitude fields (record g { sats = sats })))
