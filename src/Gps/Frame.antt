-- ===== src/Gps/Frame.antt =====
-- Sentences that are framed and checked, src/gps.rs.
use Prim.Native.Nat.{bit_xor}
use rust_gps_ntp.Common.{
  ℕ, ◌/◌, ◌%◌, ◌<◌, ◌≡◌, refl, ap, ◌∙◌, Bool, true, false, none, some, [], ◌∷◌, ◌++◌, ◌&&◌, ltb,
  ◌==◌, ==_iff, ltb→lt, All, arith,
}
use rust_gps_ntp.Common.Bits.{check_below, check_below_sound}
use rust_gps_ntp.Common.Decimal.{hex_digit}
use rust_gps_ntp.Protection.Cidr.{Text}
use rust_gps_ntp.SdLog.Form.RoundTrip.{parse_hex-digits}
use rust_gps_ntp.Gps.{
  is_ascii, checksum, checksum_onto, nmea_frame, rsplit_once, rsplit_next, checksum_field,
  nmea_checksum_valid, matches,
}

xor_small : ℕ → ℕ → Bool
xor_small a b = ltb (bit_xor a b) 128

-- The exclusive or of two ASCII characters is below 128, checked for all of them.
xor-checked : check_below 128 (λ a. check_below 128 (xor_small a)) ≡ true
unfolding check_below xor_small
xor-checked = refl

xor-lt : (a b : ℕ) → a < 128 → b < 128 → bit_xor a b < 128
unfolding xor_small
xor-lt a b h k = ltb→lt (bit_xor a b) 128 (
    check_below_sound 128 (xor_small a) b
      (check_below_sound 128 (λ x. check_below 128 (xor_small x)) a xor-checked h) k)

checksum-lt : (acc : ℕ) (s : Text) → acc < 128 → All (λ c. c < 128) s → checksum_onto acc s < 128
checksum-lt acc [] h k = h
checksum-lt acc (b ∷ bs) h (k, ks) = checksum-lt (bit_xor acc b) bs (xor-lt acc b h k) ks

-- The last star of a text that is followed by none.
rsplit_once-last :
    (front back : Text)
    → rsplit_once b'*' back ≡ none
    → rsplit_once b'*' (front ++ (b'*' ∷ back)) ≡ some (front, back)
unfolding rsplit_once
rsplit_once-last [] back h = ap (rsplit_next b'*' b'*' back) h
rsplit_once-last (c ∷ front) back h =
    ap (rsplit_next b'*' c (front ++ (b'*' ∷ back))) (rsplit_once-last front back h)

is_ascii-All : (s : Text) → All (λ c. c < 128) s → is_ascii s ≡ true
is_ascii-All [] h = refl
is_ascii-All (c ∷ s) (h, hs) = ground (arith, is_ascii-All s hs)

is_ascii-append : (s t : Text) → is_ascii s ≡ true → is_ascii t ≡ true → is_ascii (s ++ t) ≡ true
is_ascii-append [] t h k = k
is_ascii-append (c ∷ s) t h k = ground (arith, h, is_ascii-append s t (ground (arith, h)) k)

abbrev tail_of : ℕ → Text
tail_of sum = hex_digit (sum / 16) ∷ hex_digit (sum % 16) ∷ 13 ∷ 10 ∷ []

tail_of-no_star : (sum : ℕ) → sum < 128 → rsplit_once b'*' (tail_of sum) ≡ none
unfolding rsplit_once
tail_of-no_star sum h =
    let high : (hex_digit (sum / 16) == b'*') ≡ false = ground arith in
    let low : (hex_digit (sum % 16) == b'*') ≡ false = ground arith in rw low (rw high refl)

tail_of-is_ascii : (sum : ℕ) → sum < 128 → is_ascii (tail_of sum) ≡ true
tail_of-is_ascii sum h = ground arith

-- A body of ASCII characters, framed, has a valid checksum, also where it holds stars of its own.
pub nmea_checksum_valid-nmea_frame :
    (body : Text) → All (λ c. c < 128) body → nmea_checksum_valid (nmea_frame body) ≡ true
unfolding nmea_checksum_valid nmea_frame
nmea_checksum_valid-nmea_frame body h =
    let sum = checksum body in
    let small = checksum-lt 0 body (omega arith) h in
    let ascii : is_ascii (body ++ (b'*' ∷ tail_of sum)) ≡ true =
      is_ascii-append body (b'*' ∷ tail_of sum) (is_ascii-All body h)
        (tail_of-is_ascii sum small) in
    let split : rsplit_once b'*' (b'$' ∷ (body ++ (b'*' ∷ tail_of sum)))
        ≡ some (b'$' ∷ body, tail_of sum) =
      rsplit_once-last (b'$' ∷ body) (tail_of sum) (tail_of-no_star sum small) in
    ap (λ a. a && true && checksum_field (rsplit_once b'*' (b'$' ∷ (body ++ (b'*' ∷ tail_of sum)))))
      ascii
    ∙ ap checksum_field split
    ∙ ap (λ o. matches o sum) (parse_hex-digits sum (omega arith))
    ∙ (==_iff sum sum).1 refl
