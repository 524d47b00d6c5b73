-- ===== src/Timezone/Fetch.antt =====
-- The lookup of a zone by its coordinates, src/timezone.rs. The HTTP client is a parameter: what it
-- answers to a URL; of an error only that it happens is kept.
pub mod Found
use rust_gps_ntp.Common.{
  ℕ, Bool, true, false, Option, none, some, List, [], ◌∷◌, ◌++◌, ◌&&◌, leb, ltb, take,
  if◌then◌else◌,
}
use rust_gps_ntp.Ntp.Bytes.{Buffer}
use rust_gps_ntp.Ntp.Packet.{codes}
use rust_gps_ntp.Protection.Cidr.{Text}
use rust_gps_ntp.Timezone.{Lookup, found, nameless, failed, extract_json_string_field}

-- The size of the buffer for a body; what does not fit is left unread.
abbrev pub body_max : ℕ
body_max = 1536

-- An answer: no connection, no request or no response, or a status and the body, whose reading may
-- fail.
pub data HttpAnswer : Type 0 where
  unreachable : HttpAnswer
  answer : ℕ → Option Buffer → HttpAnswer

abbrev pub or_field : Option Text → Option Text → Option Text
or_field (some name) other = some name
or_field none other = other

abbrev pub lookup_of : Option Text → Lookup
lookup_of (some name) = found name
lookup_of none = nameless

-- The name in a body: the first of three fields that is there.
unfoldable pub name_of : Text → Option Text
unfolding extract_json_string_field
name_of body =
    or_field
      (or_field (extract_json_string_field body (codes "timezone"))
        (extract_json_string_field body (codes "timezoneId")))
      (extract_json_string_field body (codes "ianaTimeZoneId"))

-- The two services, for coordinates that are printed with six decimals.
abbrev pub open_meteo_url : Text → Text → Text
open_meteo_url lat lon =
    codes "https://api.open-meteo.com/v1/forecast?latitude="
    ++ (lat ++ (codes "&longitude=" ++ (lon ++ codes "&current=temperature_2m&timezone=auto")))

abbrev pub geonames_url : Text → Text → Text
geonames_url lat lon =
    codes "https://secure.geonames.org/timezoneJSON?lat="
    ++ (lat ++ (codes "&lng=" ++ (lon ++ codes "&username=demo")))

abbrev pub or_geonames : Lookup → Lookup → Lookup
or_geonames (found name) second = found name
or_geonames nameless second = second
or_geonames failed second = failed

module _ (utf8 : Buffer → Option Text) where
  abbrev pub of_body : Option Buffer → Lookup
  unfolding name_of
  of_body none = failed
  of_body (some bytes) = elim (utf8 (take body_max bytes)) [
    | none ↦ failed
    | some body ↦ lookup_of (name_of body)
  ]

  abbrev pub of_answer : HttpAnswer → Lookup
  of_answer unreachable = failed
  of_answer (answer status body) = if leb 200 status && ltb status 300 then of_body body else failed

  unfoldable pub fetch_timezone_from_url : (Text → HttpAnswer) → Text → Lookup
  fetch_timezone_from_url http url = of_answer (http url)

  unfoldable pub fetch_timezone_for_coords : (Text → HttpAnswer) → Text → Text → Lookup
  unfolding fetch_timezone_from_url
  fetch_timezone_for_coords http lat lon =
      or_geonames (fetch_timezone_from_url http (open_meteo_url lat lon))
        (fetch_timezone_from_url http (geonames_url lat lon))
