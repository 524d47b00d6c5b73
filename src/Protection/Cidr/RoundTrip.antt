-- ===== src/Protection/Cidr/RoundTrip.antt =====
-- The parser of `a.b.c.d/prefix` against a printer, and the range of what it answers.
use mathlib.Core.List.{reverse-append, reverse-reverse}
use rust_gps_ntp.Common.{
  ℕ, ◌≤◌, ◌<◌, ◌≡◌, refl, Bool, true, false, Option, none, some, List, [], ◌∷◌, ◌++◌, ◌&&◌, arith,
  All, All-append, reverse, ltb, leb, ◌==◌, Bool-cases, inl, inr,
}
use rust_gps_ntp.Common.Decimal.{print_u8}
use rust_gps_ntp.Common.Bits.{check_below, check_below_sound}
use rust_gps_ntp.Protection.Cidr.{
  Text, is_whitespace, trim_start, trim, split_once, split, parse_uint, parse_u8, is_empty, Cidr,
  parse_ipv4_cidr,
}

unfoldable pub print_cidr : Cidr → Text
unfolding print_u8
print_cidr x =
    (print_u8 x.a ++ b'.' ∷ (print_u8 x.b ++ b'.' ∷ (print_u8 x.c ++ b'.' ∷ print_u8 x.d)))
    ++ b'/' ∷ print_u8 x.prefix

abbrev is_digit : ℕ → Bool
is_digit c = leb b'0' c && leb c b'9'

-- Neither white space nor the separator before the prefix.
abbrev IsPlain : ℕ → Type 0
IsPlain c = (is_whitespace c ≡ false) × ((c == b'/') ≡ false)

abbrev IsDigit : ℕ → Type 0
IsDigit c = is_digit c ≡ true

digit-IsPlain : (c : ℕ) → IsDigit c → IsPlain c
unfolding is_whitespace
digit-IsPlain c h = ground arith

All-weaken {ℓ} :
    {A : Type ℓ} (P Q : A → Type 0) → ((x : A) → P x → Q x) → (xs : List A) → All P xs → All Q xs
All-weaken P Q f [] h = tt
All-weaken P Q f (x ∷ xs) (h, hs) = (f x h, All-weaken P Q f xs hs)

All-reverse {ℓ} : {A : Type ℓ} (P : A → Type 0) (xs : List A) → All P xs → All P (reverse xs)
All-reverse P [] h = tt
All-reverse P (x ∷ xs) (h, hs) =
    rw (reverse-append (x ∷ []) xs)
      (All-append P (reverse xs) (x ∷ []) (All-reverse P xs hs) (h, tt))

trim_start-plain : (s : Text) → All (λ c. is_whitespace c ≡ false) s → trim_start s ≡ s
unfolding trim_start
trim_start-plain [] h = refl
trim_start-plain (c ∷ s) (h, hs) = rw h

trim-plain : (s : Text) → All (λ c. is_whitespace c ≡ false) s → trim s ≡ s
unfolding trim
trim-plain s h =
    rw
      (
        trim_start-plain s h,
        trim_start-plain (reverse s) (All-reverse (λ c. is_whitespace c ≡ false) s h),
      )
      (reverse-reverse s)

split_once-append :
    (at : ℕ) (x y : Text)
    → All (λ c. (c == at) ≡ false) x
    → split_once at (x ++ at ∷ y) ≡ some (x, y)
unfolding split_once
split_once-append at [] y h = ground arith
split_once-append at (c ∷ x) y (h, hs) = rw (h, split_once-append at x y hs)

split-append :
    (at : ℕ) (x y : Text) → All (λ c. (c == at) ≡ false) x → split at (x ++ at ∷ y) ≡ x ∷ split at y
unfolding split
split-append at [] y h = ground arith
split-append at (c ∷ x) y (h, hs) = rw (h, split-append at x y hs)

split-single : (at : ℕ) (x : Text) → All (λ c. (c == at) ≡ false) x → split at x ≡ x ∷ []
unfolding split
split-single at [] h = refl
split-single at (c ∷ x) (h, hs) = rw (h, split-single at x hs)

some_eq : Option ℕ → ℕ → Bool
some_eq none n = false
some_eq (some m) n = m == n

some_eq_sound : (o : Option ℕ) (n : ℕ) → some_eq o n ≡ true → o ≡ some n
unfolding some_eq
some_eq_sound none n h = cc
some_eq_sound (some m) n h = ground arith

octets_table : check_below 256 (λ n. some_eq (parse_u8 (print_u8 n)) n) ≡ true
unfolding check_below some_eq parse_uint print_u8
octets_table = refl

parse_u8-print_u8 : (n : ℕ) → n < 256 → parse_u8 (print_u8 n) ≡ some n
parse_u8-print_u8 n h =
    some_eq_sound (parse_u8 (print_u8 n)) n
      (check_below_sound 256 (λ k. some_eq (parse_u8 (print_u8 k)) k) n octets_table h)

print_u8-digits : (n : ℕ) → n < 256 → All IsDigit (print_u8 n)
unfolding print_u8
print_u8-digits n h = elim (Bool-cases (ltb n 10)) [
  | inl e ↦ rw e (ground arith, tt)
  | inr e ↦ elim (Bool-cases (ltb n 100)) [
    | inl f ↦ rw (e, f) (ground arith, (ground arith, tt))
    | inr f ↦ rw (e, f) (ground arith, (ground arith, (ground arith, tt)))
  ]
]

abbrev pub IsCidr : Cidr → Type 0
IsCidr x = (x.a < 256) × (x.b < 256) × (x.c < 256) × (x.d < 256) × (x.prefix ≤ 32)

digit-not_dot : (c : ℕ) → IsDigit c → (c == b'.') ≡ false
digit-not_dot c h = ground arith

no_dots : (n : ℕ) → n < 256 → All (λ c. (c == b'.') ≡ false) (print_u8 n)
no_dots n h =
    All-weaken IsDigit (λ c. (c == b'.') ≡ false) digit-not_dot (print_u8 n) (print_u8-digits n h)

octet-IsPlain : (n : ℕ) → n < 256 → All IsPlain (print_u8 n)
octet-IsPlain n h = All-weaken IsDigit IsPlain digit-IsPlain (print_u8 n) (print_u8-digits n h)

dot-IsPlain : IsPlain b'.'
unfolding is_whitespace
dot-IsPlain = (refl, refl)

dotted-IsPlain :
    (n : ℕ) (rest : Text) → n < 256 → All IsPlain rest → All IsPlain (print_u8 n ++ b'.' ∷ rest)
dotted-IsPlain n rest h hs =
    All-append IsPlain (print_u8 n) (b'.' ∷ rest) (octet-IsPlain n h) (dot-IsPlain, hs)

abbrev dotted : Cidr → Text
dotted x = print_u8 x.a ++ b'.' ∷ (print_u8 x.b ++ b'.' ∷ (print_u8 x.c ++ b'.' ∷ print_u8 x.d))

address-IsPlain : (x : Cidr) → IsCidr x → All IsPlain (dotted x)
address-IsPlain x h =
    dotted-IsPlain x.a _ h.0
      (dotted-IsPlain x.b _ h.1 (dotted-IsPlain x.c _ h.2 (octet-IsPlain x.d h.3)))

split-address :
    (x : Cidr)
    → IsCidr x
    → split b'.' (dotted x) ≡ print_u8 x.a ∷ print_u8 x.b ∷ print_u8 x.c ∷ print_u8 x.d ∷ []
split-address x h = rw (
  split-append b'.' (print_u8 x.a) _ (no_dots x.a h.0),
  split-append b'.' (print_u8 x.b) _ (no_dots x.b h.1),
  split-append b'.' (print_u8 x.c) _ (no_dots x.c h.2),
  split-single b'.' (print_u8 x.d) (no_dots x.d h.3),
)

no_space : (c : ℕ) → IsPlain c → is_whitespace c ≡ false
no_space c h = h.0

text_no_space : (x : Cidr) → IsCidr x → All (λ c. is_whitespace c ≡ false) (print_cidr x)
unfolding print_cidr is_whitespace
text_no_space x h =
    All-append (λ c. is_whitespace c ≡ false) (dotted x) (b'/' ∷ print_u8 x.prefix)
      (All-weaken IsPlain (λ c. is_whitespace c ≡ false) no_space (dotted x) (address-IsPlain x h))
      (
        refl,
        All-weaken IsPlain (λ c. is_whitespace c ≡ false) no_space (print_u8 x.prefix)
            (octet-IsPlain x.prefix (omega (arith, h.4))),
      )

split_once-print :
    (x : Cidr) → IsCidr x → split_once b'/' (print_cidr x) ≡ some (dotted x, print_u8 x.prefix)
unfolding print_cidr
split_once-print x h =
    split_once-append b'/' (dotted x) (print_u8 x.prefix)
      (All-weaken IsPlain (λ c. (c == b'/') ≡ false) (λ c p. p.1) (dotted x) (address-IsPlain x h))

print_cidr-not_empty : (x : Cidr) → IsCidr x → is_empty (print_cidr x) ≡ false
unfolding print_cidr print_u8
print_cidr-not_empty x h = ground arith

-- What is printed is parsed back, for all octets and all prefixes up to 32.
pub parse_ipv4_cidr-print_cidr : (x : Cidr) → IsCidr x → parse_ipv4_cidr (print_cidr x) ≡ some x
unfolding parse_ipv4_cidr
parse_ipv4_cidr-print_cidr x h =
    let fits : leb x.prefix 32 ≡ true = ground arith in
    rw
      (
        trim-plain (print_cidr x) (text_no_space x h),
        print_cidr-not_empty x h,
        split_once-print x h,
        parse_u8-print_u8 x.prefix (omega (arith, h.4)),
        split-address x h,
      )
      (rw (
        fits,
        parse_u8-print_u8 x.a h.0,
        parse_u8-print_u8 x.b h.1,
        parse_u8-print_u8 x.c h.2,
        parse_u8-print_u8 x.d h.3,
      ))
