-- ===== src/SdLog/Form.antt =====
-- Text that the pages of the log server take in and give out, src/sdlog.rs: `html_escape` and
-- `form_decode`. A text is the list of its bytes in UTF-8.
pub mod RoundTrip
use rust_gps_ntp.Common.{
  ℕ, ◌+◌, ◌-◌, ◌*◌, Bool, true, false, Option, none, some, List, [], ◌∷◌, ◌++◌, ◌&&◌, not, leb, ltb,
  ◌==◌, if◌then◌else◌, ◌>>=◌,
}
use rust_gps_ntp.Ntp.Bytes.{Buffer}
use rust_gps_ntp.Ntp.Packet.{codes}

unfoldable pub escape_char : ℕ → Buffer
escape_char c =
    if c == b'&'
    then codes "&amp;"
    else if c == b'<'
    then codes "&lt;"
    else if c == b'>'
    then codes "&gt;"
    else if c == 34
    then codes "&quot;"
    else c ∷ []

unfoldable pub html_escape : Buffer → Buffer
unfolding escape_char
html_escape [] = []
html_escape (c ∷ s) = escape_char c ++ html_escape s

-- A byte that continues a character of several bytes: a slice of a `str` may not start or end there.
abbrev pub is_continuation : ℕ → Bool
is_continuation c = leb 0x80 c && ltb c 0xc0

abbrev pub at_boundary : Buffer → Bool
at_boundary [] = true
at_boundary (c ∷ _) = not (is_continuation c)

unfoldable pub hex_value : ℕ → Option ℕ
hex_value c =
    if leb b'0' c && leb c b'9'
    then some (c - b'0')
    else if leb b'a' c && leb c b'f'
    then some (c - b'a' + 10)
    else if leb b'A' c && leb c b'F'
    then some (c - b'A' + 10)
    else none

-- `u8::from_str_radix` in base 16, of two characters: a plus sign may stand before one digit.
unfoldable pub parse_hex : ℕ → ℕ → Option ℕ
unfolding hex_value
parse_hex a b =
    if a == b'+' then hex_value b else (do x ← hex_value a; y ← hex_value b; some (x * 16 + y))

abbrev pub push : ℕ → Option Buffer → Option Buffer
push c none = none
push c (some s) = some (c ∷ s)

abbrev pub plain : ℕ → ℕ
plain c = if c == b'+' then 32 else c

-- The bytes that `form_decode` collects. `none` is the panic of the slice after a `%`, where that
-- starts or ends inside a character.
unfoldable pub form_bytes : Buffer → Option Buffer
unfolding parse_hex
form_bytes [] = some []
form_bytes (c ∷ []) = some (plain c ∷ [])
form_bytes (c ∷ a ∷ []) = push (plain c) (form_bytes (a ∷ []))
form_bytes (c ∷ a ∷ b ∷ s) = elim (c == b'%') [
  | false ↦ push (plain c) (form_bytes (a ∷ b ∷ s))
  | true ↦ elim (not (is_continuation a) && at_boundary s) [
    | false ↦ none
    | true ↦ elim (parse_hex a b) [
      | some v ↦ push v (form_bytes s)
      | none ↦ push b'%' (form_bytes (a ∷ b ∷ s))
    ]
  ]
]
