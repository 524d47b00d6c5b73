-- ===== src/SdLog/Form/RoundTrip.antt =====
-- What `html_escape` and `form_decode` of src/sdlog.rs do to whole texts.
use rust_gps_ntp.Common.{
  ℕ, ◌+◌, ◌*◌, ◌/◌, ◌%◌, ◌<◌, ◌≤◌, ◌≡◌, ◌≢◌, refl, ap, ◌∙◌, Bool, true, false, none, some, [], ◌∷◌,
  ◌++◌, ◌&&◌, ◌||◌, not, leb, ◌==◌, if◌then◌else◌, All, All-append, Bool-cases, inl, inr, arith,
}
use rust_gps_ntp.Common.Decimal.{hex_digit}
use rust_gps_ntp.Ntp.Bytes.{Buffer}
use rust_gps_ntp.SdLog.Form.{
  escape_char, html_escape, is_continuation, at_boundary, hex_value, parse_hex, push, plain,
  form_bytes,
}

-- A character that cannot open or close a tag or a quoted attribute.
abbrev pub Inert : ℕ → Type 0
Inert c = (c ≢ b'<') × (c ≢ b'>') × (c ≢ 34)

escape_char-Inert : (c : ℕ) → All Inert (escape_char c)
unfolding escape_char
escape_char-Inert c = ground arith

-- No `<`, `>` or `"` is left in an escaped text.
pub html_escape-Inert : (s : Buffer) → All Inert (html_escape s)
unfolding html_escape
html_escape-Inert [] = tt
html_escape-Inert (c ∷ s) =
    All-append Inert (escape_char c) (html_escape s) (escape_char-Inert c) (html_escape-Inert s)

-- The encoding of a form's value: letters, digits and `-._` stand for themselves, a space is a plus
-- sign, and every other byte is a percent sign and two digits.
abbrev pub is_unreserved : ℕ → Bool
is_unreserved c =
    (leb b'0' c && leb c b'9')
    || (leb b'a' c && leb c b'z')
    || (leb b'A' c && leb c b'Z')
    || c == b'-'
    || c == b'.'
    || c == b'_'

abbrev pub encode_byte : ℕ → Buffer → Buffer
encode_byte c rest =
    if is_unreserved c
    then c ∷ rest
    else if c == 32
    then b'+' ∷ rest
    else b'%' ∷ hex_digit (c / 16) ∷ hex_digit (c % 16) ∷ rest

abbrev pub encode_form : Buffer → Buffer
encode_form [] = []
encode_form (c ∷ s) = encode_byte c (encode_form s)

hex_value-hex_digit : (d : ℕ) → d < 16 → hex_value (hex_digit d) ≡ some d
unfolding hex_value
hex_value-hex_digit d h = ground arith

pub parse_hex-digits :
    (c : ℕ) → c < 256 → parse_hex (hex_digit (c / 16)) (hex_digit (c % 16)) ≡ some c
unfolding parse_hex
parse_hex-digits c h =
    let not_plus : (hex_digit (c / 16) == b'+') ≡ false = ground arith in
    let sum : c / 16 * 16 + c % 16 ≡ c = omega arith in
    rw
      (
        not_plus,
        hex_value-hex_digit (c / 16) (omega arith),
        hex_value-hex_digit (c % 16) (omega arith),
      )
      (ap some sum)

plain_step :
    (c : ℕ) (s : Buffer) → (c == b'%') ≡ false → form_bytes (c ∷ s) ≡ push (plain c) (form_bytes s)
unfolding form_bytes
plain_step c [] h = refl
plain_step c (a ∷ []) h = refl
plain_step c (a ∷ b ∷ s) h = rw (h, form_bytes) refl

percent_step :
    (a b v : ℕ) (s : Buffer)
    → (not (is_continuation a) && at_boundary s) ≡ true
    → parse_hex a b ≡ some v
    → form_bytes (b'%' ∷ a ∷ b ∷ s) ≡ push v (form_bytes s)
unfolding form_bytes
percent_step a b v s h e = rw (h, e, form_bytes) refl

encode_form-boundary : (s : Buffer) → at_boundary (encode_form s) ≡ true
encode_form-boundary [] = refl
encode_form-boundary (c ∷ s) = elim (Bool-cases (is_unreserved c)) [
  | inl e ↦ rw e (ground arith)
  | inr e ↦ elim (Bool-cases (c == 32)) [ inl k ↦ rw (e, k) refl | inr k ↦ rw (e, k) refl ]
]

safe_lem :
    (c : ℕ) (s : Buffer)
    → c < 256
    → at_boundary s ≡ true
    → (not (is_continuation (hex_digit (c / 16))) && at_boundary s) ≡ true
safe_lem c s h b = rw b (ground arith)

encode_byte-back :
    (c : ℕ) (s : Buffer)
    → c < 256
    → at_boundary s ≡ true
    → form_bytes (encode_byte c s) ≡ push c (form_bytes s)
encode_byte-back c s h b = elim (Bool-cases (is_unreserved c)) [
  | inl e ↦
      let same : plain c ≡ c = ground (arith, e) in
      rw e (plain_step c s (ground (arith, e)) ∙ ap (λ k. push k (form_bytes s)) same)
  | inr e ↦ elim (Bool-cases (c == 32)) [
    | inl k ↦
        let same : 32 ≡ c = ground (arith, k) in
        rw (e, k) (plain_step b'+' s refl ∙ ap (λ n. push n (form_bytes s)) same)
    | inr k ↦
        rw (e, k)
          (percent_step (hex_digit (c / 16)) (hex_digit (c % 16)) c s (safe_lem c s h b)
            (parse_hex-digits c h))
  ]
]

-- Every text of bytes comes back from its encoding.
pub form_bytes-encode_form :
    (s : Buffer) → All (λ c. c < 256) s → form_bytes (encode_form s) ≡ some s
unfolding form_bytes
form_bytes-encode_form [] h = refl
form_bytes-encode_form (c ∷ s) (h, hs) =
    encode_byte-back c (encode_form s) h (encode_form-boundary s)
    ∙ ap (push c) (form_bytes-encode_form s hs)

-- A value in which a percent sign is followed by two bytes and then by a byte that continues a
-- character cannot be decoded: the slice after the sign panics, whatever comes before the sign if
-- that has no percent sign of its own, and whatever comes after.
pub form_bytes-panics :
    (front : Buffer) (a b c : ℕ) (rest : Buffer)
    → All (λ k. k ≢ b'%') front
    → 0x80 ≤ c
    → c < 0xc0
    → form_bytes (front ++ (b'%' ∷ a ∷ b ∷ c ∷ rest)) ≡ none
unfolding form_bytes
form_bytes-panics [] a b c rest h low high =
    let inside : (not (is_continuation a) && at_boundary (c ∷ rest)) ≡ false = ground arith in
    rw (inside, form_bytes) refl
form_bytes-panics (k ∷ front) a b c rest (h, hs) low high =
    plain_step k (front ++ (b'%' ∷ a ∷ b ∷ c ∷ rest)) (ground arith)
    ∙ ap (push (plain k)) (form_bytes-panics front a b c rest hs low high)
