-- ===== src/Gps/Sentences/Applied.antt =====
-- What an RMC sentence that passes its checks does, `parse_rmc` of src/gps.rs.
use rust_gps_ntp.Common.{
  ℕ, zero, suc, ◌≤◌, ◌≡◌, refl, Bool, true, false, Option, none, some, List, [], ◌∷◌, ◌&&◌, not,
  ltb, ◌==◌, length, get_or, if◌then◌else◌, ◌>>=◌, All, Bool-cases, inl, inr, ◌⊎◌, take, arith,
}
use rust_gps_ntp.Protection.Cidr.{Text, split, on_head}
use rust_gps_ntp.Ntp.Packet.{codes}
use rust_gps_ntp.SdLog.Http.{eq_text}
use rust_gps_ntp.Gps.{
  is_ascii, nmea_checksum_valid, starts_with_dollar, checksum_field, rsplit_once, parse_hhmmss,
  parse_ddmmyy,
}
use rust_gps_ntp.Gps.Sentences.{
  Platform, GpsSnapshot, nmea_to_decimal, field, set_position, apply_rmc, parse_rmc,
}

abbrev AreAscii : List Text → Type 0
AreAscii = All (λ s. is_ascii s ≡ true)

on_head-AreAscii :
    (c : ℕ) (parts : List Text) → ltb c 128 ≡ true → AreAscii parts → AreAscii (on_head c parts)
on_head-AreAscii c [] h k = ground (arith, h)
on_head-AreAscii c (part ∷ parts) h (k, ks) = (ground (arith, h, k), ks)

split-AreAscii : (at : ℕ) (s : Text) → is_ascii s ≡ true → AreAscii (split at s)
unfolding split
split-AreAscii at [] h = (refl, tt)
split-AreAscii at (c ∷ s) h =
    let first : ltb c 128 ≡ true = ground (arith, h) in
    let rest = split-AreAscii at s (ground (arith, h)) in
    elim (Bool-cases (c == at)) [
      | inl e ↦ rw e (refl, rest)
      | inr e ↦ rw e (on_head-AreAscii c (split at s) first rest)
    ]

field-is_ascii : (parts : List Text) (i : ℕ) → AreAscii parts → is_ascii (get_or parts i []) ≡ true
field-is_ascii [] i h = refl
field-is_ascii (part ∷ parts) zero (h, hs) = h
field-is_ascii (part ∷ parts) (suc i) (h, hs) = field-is_ascii parts i hs

valid-is_ascii : (s : Text) → nmea_checksum_valid s ≡ true → is_ascii s ≡ true
unfolding nmea_checksum_valid
valid-is_ascii s h =
    first (is_ascii s) (starts_with_dollar s) (checksum_field (rsplit_once b'*' s)) h
  where
    first : (a b c : Bool) → (a && b && c) ≡ true → a ≡ true
    first true b c e = refl
    first false b c e = cc

parse_hhmmss-takes :
    (raw : Text) → 6 ≤ length raw → is_ascii raw ≡ true → parse_hhmmss raw ≡ some (take 6 raw)
unfolding parse_hhmmss
parse_hhmmss-takes raw h a =
    let long : ltb (length raw) 6 ≡ false = ground arith in rw long (rw a refl)

parse_ddmmyy-takes :
    (raw : Text) → 6 ≤ length raw → is_ascii raw ≡ true → parse_ddmmyy raw ≡ some (take 6 raw)
unfolding parse_ddmmyy
parse_ddmmyy-takes raw h a =
    let long : ltb (length raw) 6 ≡ false = ground arith in rw long (rw a refl)

module _ (pf : Platform) where
  -- The position is replaced by the two coordinates of the sentence, or kept where one of them cannot
  -- be read, and only there.
  abbrev pub IsPlaced : List Text → GpsSnapshot pf → GpsSnapshot pf → Type 0
  IsPlaced fields g h =
      (((nmea_to_decimal pf (field pf fields 3) (field pf fields 4) ≡ none)
          ⊎ (nmea_to_decimal pf (field pf fields 5) (field pf fields 6) ≡ none))
        × (h.lat ≡ g.lat)
        × (h.lon ≡ g.lon))
      ⊎ ((nmea_to_decimal pf (field pf fields 3) (field pf fields 4) ≡ some h.lat)
          × (nmea_to_decimal pf (field pf fields 5) (field pf fields 6) ≡ some h.lon))

  set_position-IsPlaced :
      (lat lon : Option pf.F32) (g : GpsSnapshot pf)
      → ((((lat ≡ none) ⊎ (lon ≡ none))
            × ((set_position pf lat lon g).lat ≡ g.lat)
            × ((set_position pf lat lon g).lon ≡ g.lon))
          ⊎ ((lat ≡ some (set_position pf lat lon g).lat)
              × (lon ≡ some (set_position pf lat lon g).lon)))
        × ((set_position pf lat lon g).fix ≡ g.fix)
        × ((set_position pf lat lon g).sats ≡ g.sats)
        × ((set_position pf lat lon g).altitude_m ≡ g.altitude_m)
  set_position-IsPlaced (some lat) (some lon) g = (inr (refl, refl), refl, refl, refl)
  set_position-IsPlaced (some lat) none g = (inl (inr refl, refl, refl), refl, refl, refl)
  set_position-IsPlaced none (some lon) g = (inl (inl refl, refl, refl), refl, refl, refl)
  set_position-IsPlaced none none g = (inl (inl refl, refl, refl), refl, refl, refl)

  -- A sentence whose checksum is valid, with ten fields and six characters of time and of date, is
  -- applied whatever its position fields and its calendar hold: the fix is what the status says, so
  -- that a receiver that loses its fix is not taken to have it; the position is replaced as a whole
  -- if both coordinates can be read and kept if one cannot; the satellites and the altitude stay.
  pub parse_rmc-applies :
      (zone : Option pf.Zone) (sentence : Text) (g : GpsSnapshot pf)
      → nmea_checksum_valid sentence ≡ true
      → 10 ≤ length (split b',' sentence)
      → 6 ≤ length (field pf (split b',' sentence) 1)
      → 6 ≤ length (field pf (split b',' sentence) 9)
      → (h : GpsSnapshot pf) × (parse_rmc pf zone sentence g ≡ some h)
        × (h.fix ≡ eq_text (field pf (split b',' sentence) 2) (codes "A"))
        × IsPlaced (split b',' sentence) g h
        × (h.sats ≡ g.sats)
        × (h.altitude_m ≡ g.altitude_m)
  unfolding parse_rmc apply_rmc
  parse_rmc-applies zone sentence g valid ten time date =
      let fields = split b',' sentence in
      let ascii = split-AreAscii b',' sentence (valid-is_ascii sentence valid) in
      let enough : ltb (length fields) 10 ≡ false = ground arith in
      let t = parse_hhmmss-takes (field pf fields 1) time (field-is_ascii fields 1 ascii) in
      let d = parse_ddmmyy-takes (field pf fields 9) date (field-is_ascii fields 9 ascii) in
      let placed =
        set_position-IsPlaced (nmea_to_decimal pf (field pf fields 3) (field pf fields 4))
          (nmea_to_decimal pf (field pf fields 5) (field pf fields 6))
          (record g { fix = eq_text (field pf fields 2) (codes "A") }) in
      (
        apply_rmc pf zone fields (take 6 (field pf fields 1)) (take 6 (field pf fields 9)) g,
        runs fields enough t d,
        placed.1,
        placed.0,
        placed.2,
        placed.3,
      )
    where
      runs :
          (fields : List Text)
          → ltb (length fields) 10 ≡ false
          → parse_hhmmss (field pf fields 1) ≡ some (take 6 (field pf fields 1))
          → parse_ddmmyy (field pf fields 9) ≡ some (take 6 (field pf fields 9))
          → (if not (nmea_checksum_valid sentence)
              then none
              else if ltb (length fields) 10
              then none
              else (parse_hhmmss (field pf fields 1) >>= λ time.
                  parse_ddmmyy (field pf fields 9) >>= λ date.
                  some (apply_rmc pf zone fields time date g)))
            ≡ some (
                apply_rmc pf zone fields
                  (take 6 (field pf fields 1))
                  (take 6 (field pf fields 9))
                  g)
      runs fields enough t d = rw (valid, enough, t, d) refl
