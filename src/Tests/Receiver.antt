-- ===== src/Tests/Receiver.antt =====
-- The GPS receiver, src/gps.rs.
use rust_gps_ntp.Common.{ℕ, ◌+◌, ◌-◌, ◌*◌, ◌/◌, ◌≡◌, refl, true, none, some, [], ◌++◌, arith}
use rust_gps_ntp.Common.Int.{pos}
use rust_gps_ntp.Ntp.Packet.{codes}
use rust_gps_ntp.Protection.Cidr.{Text, split, parse_uint}
use rust_gps_ntp.SdLog.Http.{eq_text}
use rust_gps_ntp.SdLog.Form.{parse_hex, hex_value}
use rust_gps_ntp.Gps.{nmea_checksum_valid, rsplit_once}
use rust_gps_ntp.Gps.Sentences.{Platform, GpsSnapshot, field, parse_rmc}
use rust_gps_ntp.Gps.Sentences.Applied.{IsPlaced, parse_rmc-applies}
use rust_gps_ntp.Gps.Uart.{GpsUart, feed}
use rust_gps_ntp.Gps.Stream.{feed-append}

-- Whole numbers for `f32`, and days and seconds for dates and times, in a zone that does not shift them.
abbrev pub plain_platform : Platform
plain_platform = record {
  F32 = ℕ;
  parse_f32 = parse_uint 10_000;
  lit32 = λ n. n;
  add32 = λ a b. a + b;
  sub32 = λ a b. a - b;
  mul32 = λ a b. a * b;
  div32 = λ a b. a / b;
  neg32 = λ a. a;
  floor32 = λ a. a;
  round_to_i8 = λ a. pos a;
  Date = ℕ;
  Time = ℕ;
  Zone = ℕ;
  from_ymd_opt = λ y m d. some (m * 31 + d);
  from_hms_opt = λ h m s. some (h * 3600 + m * 60 + s);
  timestamp = λ d t. pos (d * 86400 + t);
  add_hours = λ d t n. (d, t);
  in_zone = λ z d t. (d, t);
  offset_hours = λ z d t. pos 0;
  format_date = λ d. [];
  format_time = λ t. [];
  zone_of_name = λ _. none;
  offset_hours_at_unix = λ _ _. none;
}

abbrev pub had_fix : GpsSnapshot plain_platform
had_fix = record {
  local_date = [];
  local_time = [];
  tz_offset_hours = pos 0;
  utc_unix_seconds = none;
  lat = 48;
  lon = 11;
  fix = true;
  sats = 7;
  altitude_m = none;
}

-- The receiver has lost its fix and sends no position.
abbrev lost : Text
lost = codes "$GPRMC,225446,V,,,,,,,191124*3C"

parse_rmc-applies_example :
    (h : GpsSnapshot plain_platform) × (parse_rmc plain_platform none lost had_fix ≡ some h)
    × (h.fix ≡ eq_text (field plain_platform (split b',' lost) 2) (codes "A"))
    × IsPlaced plain_platform (split b',' lost) had_fix h
    × (h.sats ≡ had_fix.sats)
    × (h.altitude_m ≡ had_fix.altitude_m)
unfolding nmea_checksum_valid rsplit_once parse_hex hex_value split
parse_rmc-applies_example =
    parse_rmc-applies plain_platform none lost had_fix refl (omega arith) (omega arith)
      (omega arith)

abbrev pub idle : GpsUart plain_platform
idle = record { snapshot = had_fix; line_buf = []; bytes_seen = 0; calls = [] }

feed-append_example :
    feed plain_platform none (codes "$GPRMC,2254" ++ codes "46,V,,,,,,,191124*3C\n") idle
    ≡ feed plain_platform none
        (codes "46,V,,,,,,,191124*3C\n")
        (feed plain_platform none (codes "$GPRMC,2254") idle)
feed-append_example =
    feed-append plain_platform none (codes "$GPRMC,2254") (codes "46,V,,,,,,,191124*3C\n") idle
