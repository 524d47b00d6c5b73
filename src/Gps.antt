-- ===== src/Gps.antt =====
-- The GPS receiver, src/gps.rs: the sentences' frame, their fields, and the ingest of the UART. A text
-- is the list of its characters. Dates, time zones and `f32` come from libraries: they are a
-- parameter.
pub mod Frame
pub mod Sentences
pub mod Uart
pub mod Stream
use Prim.Native.Nat.{bit_xor}
use rust_gps_ntp.Common.{
  ℕ, ◌+◌, ◌/◌, ◌%◌, ◌^◌, Bool, true, false, Option, none, some, List, [], ◌∷◌, ◌++◌, ◌&&◌, ◌||◌,
  not, ltb, leb, ◌==◌, length, take, drop, if◌then◌else◌, ◌>>=◌,
}
use rust_gps_ntp.Common.Int.{ℤ, pos, negsuc, ◌+ℤ◌, ◌-ℤ◌}
use rust_gps_ntp.Common.Decimal.{hex_digit}
use rust_gps_ntp.Protection.Cidr.{Text, parse_digits, parse_uint, split}
use rust_gps_ntp.SdLog.Form.{parse_hex}

abbrev pub is_ascii : Text → Bool
is_ascii [] = true
is_ascii (c ∷ s) = ltb c 128 && is_ascii s

abbrev pub checksum_onto : ℕ → Text → ℕ
checksum_onto acc [] = acc
checksum_onto acc (b ∷ bs) = checksum_onto (bit_xor acc b) bs

abbrev pub checksum : Text → ℕ
checksum = checksum_onto 0

unfoldable pub nmea_frame : Text → Text
nmea_frame body =
    b'$'
    ∷ (body
        ++ (b'*' ∷ hex_digit (checksum body / 16) ∷ hex_digit (checksum body % 16) ∷ 13 ∷ 10 ∷ []))

-- The text before the last occurrence of a character, and the text after it.
abbrev pub rsplit_next : ℕ → ℕ → Text → Option (Text × Text) → Option (Text × Text)
rsplit_next at c s (some (before, after)) = some (c ∷ before, after)
rsplit_next at c s none = if c == at then some ([], s) else none

unfoldable pub rsplit_once : ℕ → Text → Option (Text × Text)
rsplit_once at [] = none
rsplit_once at (c ∷ s) = rsplit_next at c s (rsplit_once at s)

abbrev pub starts_with_dollar : Text → Bool
starts_with_dollar [] = false
starts_with_dollar (c ∷ _) = c == b'$'

unfoldable pub starts_with : Text → Text → Bool
starts_with [] s = true
starts_with (p ∷ ps) [] = false
starts_with (p ∷ ps) (c ∷ s) = let rest = starts_with ps s in if p == c then rest else false

abbrev pub matches : Option ℕ → ℕ → Bool
matches none computed = false
matches (some expected) computed = computed == expected

-- The two characters after the star, and the checksum of what stands between the `$` and the star.
abbrev pub checksum_field : Option (Text × Text) → Bool
checksum_field none = false
checksum_field (some (before, [])) = false
checksum_field (some (before, a ∷ [])) = false
checksum_field (some (before, a ∷ b ∷ _)) = matches (parse_hex a b) (checksum (drop 1 before))

unfoldable pub nmea_checksum_valid : Text → Bool
unfolding rsplit_once
nmea_checksum_valid sentence =
    is_ascii sentence && starts_with_dollar sentence && checksum_field (rsplit_once b'*' sentence)

-- Both date and time fields are the first six characters of an ASCII text.
unfoldable pub parse_hhmmss : Text → Option Text
parse_hhmmss raw = if ltb (length raw) 6 || not (is_ascii raw) then none else some (take 6 raw)

unfoldable pub parse_ddmmyy : Text → Option Text
parse_ddmmyy raw = if ltb (length raw) 6 || not (is_ascii raw) then none else some (take 6 raw)

-- `raw[i..i + 2]`.
abbrev pub pair_at : ℕ → Text → Text
pair_at i raw = take 2 (drop i raw)

unfoldable pub format_hhmmss : Text → Text
format_hhmmss raw6 = pair_at 0 raw6 ++ (b':' ∷ (pair_at 2 raw6 ++ (b':' ∷ pair_at 4 raw6)))

unfoldable pub format_ddmmyy : Text → Text
format_ddmmyy raw6 =
    b'2' ∷ b'0' ∷ (pair_at 4 raw6 ++ (b'-' ∷ (pair_at 2 raw6 ++ (b'-' ∷ pair_at 0 raw6))))

abbrev pub negated : Option ℕ → Option ℤ
negated none = none
negated (some n) = some (pos 0 -ℤ pos n)

abbrev pub positive : Option ℕ → Option ℤ
positive none = none
positive (some n) = some (pos n)

-- `parse::<i32>()`.
unfoldable pub parse_i32 : Text → Option ℤ
unfolding parse_uint parse_digits ◌-ℤ◌
parse_i32 [] = none
parse_i32 (c ∷ []) = positive (parse_uint (2 ^ 31) (c ∷ []))
parse_i32 (c ∷ d ∷ s) =
    if c == b'-'
    then negated (parse_digits (2 ^ 31 + 1) 0 (d ∷ s))
    else positive (parse_uint (2 ^ 31) (c ∷ d ∷ s))
