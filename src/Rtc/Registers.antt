-- ===== src/Rtc/Registers.antt =====
-- Registers that are written and read back, src/rtc.rs.
use rust_gps_ntp.Common.{
  ℕ, ◌+◌, ◌*◌, ◌-◌, ◌/◌, ◌%◌, ◌^◌, ◌<◌, ◌≤◌, min, ◌≡◌, refl, ap, ◌∙◌, true, none, some, not,
  if◌then◌else◌, ◌==◌, arith,
}
use rust_gps_ntp.Common.Bits.{bit_or-disjoint}
use rust_gps_ntp.Common.Words.{u8}
use rust_gps_ntp.Rtc.{
  fields_of, RtcDateTime, bcd_to_dec, dec_to_bcd, in_calendar, decode_datetime_regs,
  encode_datetime_regs,
}

pub dec_to_bcd-sum : (v : ℕ) → v < 100 → dec_to_bcd v ≡ v / 10 * 16 + v % 10
unfolding dec_to_bcd
dec_to_bcd-sum v h =
    let fits : u8 (v / 10 * 2 ^ 4) ≡ v / 10 * 2 ^ 4 = omega arith in
    rw fits (bit_or-disjoint 4 (v / 10) (v % 10) (omega arith))

-- A byte that is written is read back.
bcd_lem : (v : ℕ) → v < 100 → bcd_to_dec (v / 10 * 16 + v % 10) ≡ v
unfolding bcd_to_dec
bcd_lem v h = omega arith

narrow : (v : ℕ) → v < 100 → dec_to_bcd (u8 v) ≡ v / 10 * 16 + v % 10
narrow v h = let fits : u8 v ≡ v = omega arith in rw fits (dec_to_bcd-sum v h)

-- A register of the given width holds a field.
field_lem :
    (w v : ℕ)
    → v < 100
    → (v / 10 * 16 + v % 10) % w ≡ v / 10 * 16 + v % 10
    → bcd_to_dec (dec_to_bcd (u8 v) % w) ≡ v
field_lem w v h e = ap (λ b. bcd_to_dec (b % w)) (narrow v h) ∙ ap bcd_to_dec e ∙ bcd_lem v h

abbrev pub Bounds : RtcDateTime → Type 0
Bounds dt =
    (dt.month ≤ 12)
    × (dt.day ≤ 31)
    × (dt.hour ≤ 23)
    × (dt.minute ≤ 59)
    × (dt.second ≤ 59)
    × (2020 ≤ dt.year)

pub bounds : (dt : RtcDateTime) → in_calendar dt ≡ true → Bounds dt
bounds dt h = ground arith

fields-back :
    (dt : RtcDateTime) → Bounds dt → dt.year < 2100 → fields_of (encode_datetime_regs dt) ≡ dt
unfolding fields_of encode_datetime_regs
fields-back dt (mo, d, ho, mi, se, y) hy =
    let short : min (dt.year - 2000) 99 ≡ dt.year - 2000 = omega arith in
    let year : 2000 + bcd_to_dec (dec_to_bcd (min (dt.year - 2000) 99)) ≡ dt.year =
      rw
        (
          short,
          dec_to_bcd-sum (dt.year - 2000) (omega arith),
          bcd_lem (dt.year - 2000) (omega arith),
        )
        (omega arith) in
    rw
      (
        year,
        field_lem 32 dt.month (omega arith) (omega arith),
        field_lem 64 dt.day (omega arith) (omega arith),
        field_lem 64 dt.hour (omega arith) (omega arith),
        field_lem 128 dt.minute (omega arith) (omega arith),
        field_lem 128 dt.second (omega arith) (omega arith),
      )
      refl

-- A time of the years 2020 to 2099 with its fields in their ranges comes back from the registers that
-- it is written to.
pub decode-encode_datetime_regs :
    (dt : RtcDateTime)
    → in_calendar dt ≡ true
    → dt.year < 2100
    → decode_datetime_regs (encode_datetime_regs dt) ≡ some dt
unfolding decode_datetime_regs encode_datetime_regs
decode-encode_datetime_regs dt h hy =
    let facts = bounds dt h in
    let back = fields-back dt facts hy in
    let runs : (dec_to_bcd (u8 dt.second) / 2 ^ 7 % 2 == 0) ≡ true =
      ap (λ b. b / 2 ^ 7 % 2 == 0) (narrow dt.second (omega (arith, facts)))
      ∙ clear dt.second facts.4 in
    ap
      (λ b.
        if not b
        then none
        else if in_calendar (fields_of (encode_datetime_regs dt))
        then some (fields_of (encode_datetime_regs dt))
        else none)
      runs
    ∙ ap (λ t. if in_calendar t then some t else none) back
    ∙ ap (λ b. if b then some dt else none) h
  where
    clear : (v : ℕ) → v ≤ 59 → ((v / 10 * 16 + v % 10) / 2 ^ 7 % 2 == 0) ≡ true
    clear v l = ground arith
