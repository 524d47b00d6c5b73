-- ===== src/Gps/Stream.antt =====
-- The ingest of a stream of characters in chunks, src/gps.rs.
use rust_gps_ntp.Common.{
  ℕ, ◌≡◌, refl, ap, ◌∙◌, sym, Bool, true, false, Option, none, some, List, [], ◌∷◌, ◌++◌, ◌==◌,
  if◌then◌else◌, append_assoc, Bool-cases, inl, inr,
}
use rust_gps_ntp.Protection.Cidr.{Text, trim}
use rust_gps_ntp.Gps.{starts_with_dollar}
use rust_gps_ntp.Gps.Sentences.{Platform, GpsSnapshot, parse_rmc, parse_gga}
use rust_gps_ntp.Gps.Uart.{
  GpsUart, lines_of, onto_lines, on_line, on_lines, feed, after_rmc, after_gga, is_rmc, is_gga,
  trim_end_matches,
}

-- The lines of a text that comes in two parts.
abbrev pub both_parts : List Text → List Text × Text → List Text × Text
both_parts lines r = (lines ++ r.0, r.1)

onto_lines-both :
    (c : ℕ) (lines : List Text) (rest : Text) (more : Text)
    → onto_lines c (both_parts lines (lines_of (rest ++ more)))
      ≡ both_parts (onto_lines c (lines, rest)).0 (elim lines as (λ _. List Text × Text) [
        | [] ↦ onto_lines c (lines_of (rest ++ more))
        | _ ∷ _ ↦ lines_of (rest ++ more)
      ])
onto_lines-both c [] rest more = refl
onto_lines-both c (line ∷ lines) rest more = refl

lines_of-append :
    (s t : Text) → lines_of (s ++ t) ≡ both_parts (lines_of s).0 (lines_of ((lines_of s).1 ++ t))
unfolding lines_of
lines_of-append [] t = refl
lines_of-append (c ∷ s) t = elim (Bool-cases (c == 10)) [
  | inl e ↦ rw e (ap (λ (r : List Text × Text). ([] ∷ r.0, r.1)) (lines_of-append s t))
  | inr e ↦ rw e (ap (onto_lines c) (lines_of-append s t) ∙ joined (lines_of s).0 (lines_of s).1 e)
]
  where
    joined :
        (lines : List Text) (rest : Text)
        → (c == 10) ≡ false
        → onto_lines c (both_parts lines (lines_of (rest ++ t)))
          ≡ both_parts
              (onto_lines c (lines, rest)).0
              (lines_of ((onto_lines c (lines, rest)).1 ++ t))
    joined [] rest e = rw e refl
    joined (line ∷ lines) rest e = refl

module _ (pf : Platform) (zone : Option pf.Zone) where
  abbrev with_rest : Text → GpsUart pf → GpsUart pf
  with_rest rest u = record u { line_buf = rest }

  -- The sentences do not look at what is left in the buffer.
  on_line-rest :
      (line rest : Text) (u : GpsUart pf)
      → on_line pf zone line (with_rest rest u) ≡ with_rest rest (on_line pf zone line u)
  unfolding on_line
  on_line-rest line rest u =
      let trimmed = trim (trim_end_matches 13 line) in
      by_tests (starts_with_dollar trimmed) (is_rmc trimmed) (is_gga trimmed)
        (parse_rmc pf zone trimmed u.snapshot) (parse_gga pf trimmed u.snapshot)
    where
      by_tests :
          (dollar rmc gga : Bool) (r g : Option (GpsSnapshot pf))
          → (if dollar
              then (if rmc
                  then after_rmc r (with_rest rest u)
                  else if gga
                  then after_gga g (with_rest rest u)
                  else with_rest rest u)
              else with_rest rest u)
            ≡ with_rest rest (
                if dollar
                then (if rmc then after_rmc r u else if gga then after_gga g u else u)
                else u)
      by_tests false rmc gga r g = refl
      by_tests true true gga none g = refl
      by_tests true true gga (some _) g = refl
      by_tests true false true r none = refl
      by_tests true false true r (some _) = refl
      by_tests true false false r g = refl

  on_lines-rest :
      (lines : List Text) (rest : Text) (u : GpsUart pf)
      → on_lines pf zone lines (with_rest rest u) ≡ with_rest rest (on_lines pf zone lines u)
  unfolding on_lines
  on_lines-rest [] rest u = refl
  on_lines-rest (line ∷ lines) rest u =
      ap (on_lines pf zone lines) (on_line-rest line rest u)
      ∙ on_lines-rest lines rest (on_line pf zone line u)

  on_lines-append :
      (a b : List Text) (u : GpsUart pf)
      → on_lines pf zone (a ++ b) u ≡ on_lines pf zone b (on_lines pf zone a u)
  unfolding on_lines
  on_lines-append [] b u = refl
  on_lines-append (line ∷ a) b u = on_lines-append a b (on_line pf zone line u)

  -- It makes no difference to the snapshot, to the consumer's calls and to what is left in the buffer
  -- how the characters are cut into chunks: two chunks in turn do what both together do.
  pub feed-append :
      (a b : Text) (u : GpsUart pf) → feed pf zone (a ++ b) u ≡ feed pf zone b (feed pf zone a u)
  unfolding feed
  feed-append a b u =
      let first = lines_of (u.line_buf ++ a) in
      let second = lines_of (first.1 ++ b) in
      let whole : lines_of (u.line_buf ++ (a ++ b)) ≡ both_parts first.0 second =
        ap lines_of (sym (append_assoc u.line_buf a b)) ∙ lines_of-append (u.line_buf ++ a) b in
      let after = on_lines pf zone first.0 (with_rest first.1 u) in
      let kept : after ≡ with_rest first.1 (on_lines pf zone first.0 u) =
        on_lines-rest first.0 first.1 u in
      ap (λ (r : List Text × Text). on_lines pf zone r.0 (with_rest r.1 u)) whole
      ∙ on_lines-append first.0 second.0 (with_rest second.1 u)
      ∙ ap (on_lines pf zone second.0) (on_lines-rest first.0 second.1 u)
      ∙ ap
          (λ (v : GpsUart pf).
            let r : List Text × Text = lines_of (v.line_buf ++ b) in
            on_lines pf zone r.0 (with_rest r.1 v))
          (sym kept)
