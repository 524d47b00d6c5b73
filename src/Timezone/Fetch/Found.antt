-- ===== src/Timezone/Fetch/Found.antt =====
-- Which name a lookup finds, `extract_json_string_field` and `fetch_timezone_for_coords` of
-- src/timezone.rs.
use rust_gps_ntp.Common.{
  ℕ, ◌≤◌, ◌<◌, ◌≡◌, ◌≢◌, refl, ap, true, false, Option, some, [], ◌∷◌, ◌++◌, ◌&&◌, leb, ltb, ◌==◌,
  take, drop, length, arith, All,
}
use rust_gps_ntp.Ntp.Bytes.{Buffer}
use rust_gps_ntp.Ntp.Packet.{codes}
use rust_gps_ntp.Protection.Cidr.{Text, split_once, trim_start, is_whitespace}
use rust_gps_ntp.Gps.{starts_with}
use rust_gps_ntp.Timezone.{found, after_first, quote, extract_json_string_field}
use rust_gps_ntp.Timezone.Fetch.{
  HttpAnswer, answer, name_of, of_body, fetch_timezone_for_coords, open_meteo_url, body_max,
}

-- A text does not start anywhere in the first text, which another follows.
abbrev pub NotWithin : Text → Text → Text → Type 0
NotWithin needle [] s = Unit
NotWithin needle (c ∷ before) s =
    (starts_with needle (c ∷ (before ++ s)) ≡ false) × NotWithin needle before s

starts_with-append : (needle s : Text) → starts_with needle (needle ++ s) ≡ true
unfolding starts_with
starts_with-append [] s = refl
starts_with-append (c ∷ needle) s = ground (arith, starts_with-append needle s)

drop-append : (s t : Text) → drop (length s) (s ++ t) ≡ t
drop-append [] t = refl
drop-append (c ∷ s) t = drop-append s t

after_first-found :
    (c : ℕ) (needle before s : Text)
    → NotWithin (c ∷ needle) before ((c ∷ needle) ++ s)
    → after_first (c ∷ needle) (before ++ ((c ∷ needle) ++ s)) ≡ some s
unfolding after_first
after_first-found c needle [] s h =
    rw (starts_with-append (c ∷ needle) s) (ap (λ t. some t) (drop-append needle s))
after_first-found c needle (b ∷ before) s h = rw h.0 (after_first-found c needle before s h.1)

split_once-found :
    (at : ℕ) (before s : Text)
    → All (λ c. c ≢ at) before
    → split_once at (before ++ (at ∷ s)) ≡ some (before, s)
unfolding split_once
split_once-found at [] s h = ground arith
split_once-found at (c ∷ before) s h =
    let other : (c == at) ≡ false = ground (arith, h.0) in
    rw (other, split_once-found at before s h.1) refl

trim_start-spaces :
    (spaces : Text) (c : ℕ) (s : Text)
    → All (λ d. is_whitespace d ≡ true) spaces
    → is_whitespace c ≡ false
    → trim_start (spaces ++ (c ∷ s)) ≡ c ∷ s
unfolding trim_start
trim_start-spaces [] c s h k = rw k refl
trim_start-spaces (d ∷ spaces) c s h k = rw h.0 (trim_start-spaces spaces c s h.1 k)

-- A field as it stands in an answer: its key, a colon, any space, and the value in quotes.
abbrev pub field_text : Text → Text → Text → Text → Text
field_text key spaces name rest =
    (quote ∷ (key ++ (quote ∷ []))) ++ (b':' ∷ (spaces ++ (quote ∷ (name ++ (quote ∷ rest)))))

-- The field's value is found where its key first stands, if there is no quote in it.
pub extract_json_string_field-found :
    (key before spaces name rest : Text)
    → NotWithin (quote ∷ (key ++ (quote ∷ []))) before (field_text key spaces name rest)
    → All (λ c. is_whitespace c ≡ true) spaces
    → All (λ c. c ≢ quote) name
    → extract_json_string_field (before ++ field_text key spaces name rest) key ≡ some name
unfolding extract_json_string_field
extract_json_string_field-found key before spaces name rest first blank plain =
    rw
      (
        after_first-found quote (key ++ (quote ∷ [])) before
            (b':' ∷ (spaces ++ (quote ∷ (name ++ (quote ∷ rest))))) first,
        trim_start-spaces spaces quote (name ++ (quote ∷ rest)) blank refl,
        split_once-found quote name rest plain,
      )
      refl

module _ (utf8 : Buffer → Option Text) (http : Text → HttpAnswer) (lat lon : Text) where
  -- If the first service answers with a status of success and a text, cut off after 1536 bytes, in
  -- which the field timezone has a value without quotes, then that is the name that is found, whatever
  -- the second service would answer.
  pub fetch_timezone_for_coords-found :
      (status : ℕ) (bytes : Buffer) (before spaces name rest : Text)
      → http (open_meteo_url lat lon) ≡ answer status (some bytes)
      → 200 ≤ status
      → status < 300
      → utf8 (take body_max bytes) ≡ some (before ++ field_text (codes "timezone") spaces name rest)
      → NotWithin
          (quote ∷ (codes "timezone" ++ (quote ∷ [])))
          before
          (field_text (codes "timezone") spaces name rest)
      → All (λ c. is_whitespace c ≡ true) spaces
      → All (λ c. c ≢ quote) name
      → fetch_timezone_for_coords utf8 http lat lon ≡ found name
  unfolding fetch_timezone_for_coords name_of
  fetch_timezone_for_coords-found status bytes before spaces name rest e lo hi u first blank plain =
      let ok : (leb 200 status && ltb status 300) ≡ true = ground arith in
      let value =
        extract_json_string_field-found (codes "timezone") before spaces name rest first blank
          plain in
      rw (e, ok, of_body, u, value) refl
