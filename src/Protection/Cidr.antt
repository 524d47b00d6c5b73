-- ===== src/Protection/Cidr.antt =====
-- src/ntp/cidr_parse.rs: `parse_ipv4_cidr`, with the parts of `str` that it uses. A text is the list
-- of its code points.
pub mod RoundTrip
use rust_gps_ntp.Common.{
  ℕ, ◌+◌, ◌-◌, ◌*◌, Bool, true, false, Option, none, some, List, [], ◌∷◌, ◌||◌, ◌&&◌, reverse, ltb,
  leb, ◌==◌, if◌then◌else◌, ◌>>=◌, ◌>>◌, ensure, is_none, not,
}

abbrev pub Text : Type 0
Text = List ℕ

abbrev pub is_empty : Text → Bool
is_empty [] = true
is_empty (_ ∷ _) = false

-- `char::is_whitespace`.
unfoldable pub is_whitespace : ℕ → Bool
is_whitespace c =
    (leb 0x09 c && leb c 0x0d)
    || c == 0x20
    || c == 0x85
    || c == 0xa0
    || c == 0x1680
    || (leb 0x2000 c && leb c 0x200a)
    || c == 0x2028
    || c == 0x2029
    || c == 0x202f
    || c == 0x205f
    || c == 0x3000

unfoldable pub trim_start : Text → Text
unfolding is_whitespace
trim_start [] = []
trim_start (c ∷ s) = if is_whitespace c then trim_start s else c ∷ s

unfoldable pub trim : Text → Text
unfolding trim_start
trim s = reverse (trim_start (reverse (trim_start s)))

-- `split_once` at a character: the text before its first occurrence, and the text after it.
unfoldable pub split_once : ℕ → Text → Option (Text × Text)
split_once at [] = none
split_once at (c ∷ s) =
    if c == at
    then some ([], s)
    else (do (before, after) ← split_once at s; some (c ∷ before, after))

abbrev pub on_head : ℕ → List Text → List Text
on_head c [] = (c ∷ []) ∷ []
on_head c (part ∷ parts) = (c ∷ part) ∷ parts

-- `split` at a character: all the parts, at least one.
unfoldable pub split : ℕ → Text → List Text
split at [] = [] ∷ []
split at (c ∷ s) = if c == at then [] ∷ split at s else on_head c (split at s)

-- The digits of an unsigned number, with the checks against the bound of its type.
unfoldable pub parse_digits : ℕ → ℕ → Text → Option ℕ
parse_digits bound acc [] = some acc
parse_digits bound acc (c ∷ s) =
    let value = acc * 10 + (c - b'0') in
    let rest = parse_digits bound value s in
    if leb b'0' c && leb c b'9' && ltb value bound then rest else none

-- `parse::<u8>()` and `parse::<u32>()`, whose values are below the bound.
unfoldable pub parse_uint : ℕ → Text → Option ℕ
unfolding parse_digits
parse_uint bound [] = none
parse_uint bound (c ∷ s) =
    if c == b'+'
    then (if is_empty s then none else parse_digits bound 0 s)
    else parse_digits bound 0 (c ∷ s)

abbrev pub parse_u8 : Text → Option ℕ
parse_u8 = parse_uint 256

-- `next` of an iterator: the first part and the parts that are left.
abbrev pub next : List Text → Option (Text × List Text)
next [] = none
next (part ∷ parts) = some (part, parts)

abbrev pub Cidr : Type 0
Cidr = record { a : ℕ; b : ℕ; c : ℕ; d : ℕ; prefix : ℕ }

unfoldable pub parse_ipv4_cidr : Text → Option Cidr
unfolding trim split_once split parse_uint
parse_ipv4_cidr s = do
  let text = trim s
  ensure (not (is_empty text))
  (addr, prefix_text) ← split_once b'/' text
  prefix ← parse_u8 prefix_text
  ensure (leb prefix 32)
  (a_text, after_a) ← next (split b'.' addr)
  a ← parse_u8 a_text
  (b_text, after_b) ← next after_a
  b ← parse_u8 b_text
  (c_text, after_c) ← next after_b
  c ← parse_u8 c_text
  (d_text, after_d) ← next after_c
  d ← parse_u8 d_text
  ensure (is_none (next after_d))
  some (record { a = a; b = b; c = c; d = d; prefix = prefix })
