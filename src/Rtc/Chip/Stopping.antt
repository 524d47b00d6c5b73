-- ===== src/Rtc/Chip/Stopping.antt =====
-- When the clock chip stands still, `write_datetime` of src/rtc.rs.
use rust_gps_ntp.Common.{
  ℕ, ◌+◌, ◌-◌, ◌*◌, min, ◌<◌, ◌/◌, ◌%◌, ◌≡◌, refl, Bool, true, false, Option, none, some, List, [],
  ◌∷◌, ◌&&◌, ◌||◌, not, ◌==◌, if◌then◌else◌, arith,
}
use rust_gps_ntp.Common.Bits.{check_below, check_below_sound}
use rust_gps_ntp.Common.Words.{u8}
use rust_gps_ntp.Ntp.Bytes.{Buffer, byte_at}
use rust_gps_ntp.Rtc.{RtcDateTime, dec_to_bcd, in_calendar, encode_datetime_regs}
use rust_gps_ntp.Rtc.Registers.{bounds, dec_to_bcd-sum}
use rust_gps_ntp.I2c.{I2cDriver}
use rust_gps_ntp.Rtc.Chip.{pcf8523_addr, stop_of, run_of, after_stop, after_control, write_datetime}

-- A transfer over the bus: a write and whether it succeeded, or a read.
pub data Transfer : Type 0 where
  wrote : (addr : ℕ) (bytes : Buffer) (ok : Bool) → Transfer
  asked : Transfer

-- The transfers of a bus are written down, the latest first.
abbrev pub recorded : {B : Type 0} → I2cDriver B → I2cDriver (B × List Transfer)
recorded bus = record {
  write = λ addr bytes timeout s.
      let r = bus.write addr bytes timeout s.0 in (r.0, (r.1, wrote addr bytes r.0 ∷ s.1));
  write_read = λ addr bytes len timeout s.
      let r = bus.write_read addr bytes len timeout s.0 in (r.0, (r.1, asked ∷ s.1));
}

-- The value that a transfer gives to the register that stops the clock, whose address is 0.
abbrev pub control_of : Transfer → Option ℕ
control_of asked = none
control_of (wrote addr [] ok) = none
control_of (wrote addr (r ∷ []) ok) = none
control_of (wrote addr (r ∷ c ∷ []) ok) =
    if ok && addr == pcf8523_addr && r == 0 then some c else none
control_of (wrote addr (r ∷ c ∷ d ∷ s) ok) = none

-- Whether a transfer writes to the registers of the time, which begin at 3.
abbrev pub aims_at_time : Transfer → Bool
aims_at_time asked = false
aims_at_time (wrote addr [] ok) = false
aims_at_time (wrote addr (r ∷ s) ok) = addr == pcf8523_addr && r == 3

abbrev pub has_failed : Transfer → Bool
has_failed asked = false
has_failed (wrote addr bytes ok) = not ok

abbrev pub payload_of : Transfer → Buffer
payload_of asked = []
payload_of (wrote addr [] ok) = []
payload_of (wrote addr (r ∷ s) ok) = s

-- Whether the clock stands still after the transfers, having run before them.
abbrev pub is_stopped : List Transfer → Bool
is_stopped [] = false
is_stopped (t ∷ ts) = elim (control_of t) [ none ↦ is_stopped ts | some c ↦ c / 32 % 2 == 1 ]

-- The time is written only while the clock stands still.
abbrev pub is_orderly : List Transfer → Bool
is_orderly [] = true
is_orderly (t ∷ ts) = (not (aims_at_time t) || is_stopped ts) && is_orderly ts

-- What the latest write of the time that succeeded has left in the registers.
abbrev pub time_written : List Transfer → Option Buffer
time_written [] = none
time_written (t ∷ ts) =
    if aims_at_time t && not (has_failed t) then some (payload_of t) else time_written ts

-- Whether the latest transfer has failed.
abbrev pub is_cut_off : List Transfer → Bool
is_cut_off [] = false
is_cut_off (t ∷ ts) = has_failed t

abbrev bits_ok : ℕ → Bool
bits_ok c = (stop_of c / 32 % 2 == 1) && not (run_of c / 32 % 2 == 1)

bits_table : check_below 256 bits_ok ≡ true
unfolding check_below
bits_table = refl

bits_lem :
    (c : ℕ) → c < 256 → ((stop_of c / 32 % 2 == 1) ≡ true) × ((run_of c / 32 % 2 == 1) ≡ false)
bits_lem c h =
    let k = check_below_sound 256 bits_ok c bits_table h in (ground (arith, k), ground (arith, k))

-- The number that a byte holds in two decimal digits.
abbrev pub digits : ℕ → ℕ
digits b = b / 16 * 10 + b % 16

-- The registers of the time as the chip reads them: seconds, minutes, hours, day, weekday, month and
-- year of the century.
pub data Holds (dt : RtcDateTime) : Buffer → Type 0 where
  holds :
      (seconds minutes hours day weekday month year : ℕ)
      → digits seconds ≡ dt.second
      → digits minutes ≡ dt.minute
      → digits hours ≡ dt.hour
      → digits day ≡ dt.day
      → digits month ≡ dt.month
      → 2000 + digits year ≡ dt.year
      → Holds dt (seconds ∷ minutes ∷ hours ∷ day ∷ weekday ∷ month ∷ year ∷ [])

-- What holds of the transfers of one call and of its result, with the registers that it is to write.
abbrev Writes : Buffer → Bool → List Transfer → Type 0
Writes regs ok ts =
    (is_orderly ts ≡ true)
    × ((is_stopped ts && not (is_cut_off ts)) ≡ false)
    × (time_written ts ≡ (if ok then some regs else none))

-- What holds of the transfers of one call that writes a time and of its result.
abbrev pub Stops : RtcDateTime → Bool → List Transfer → Type 0
Stops dt ok ts = (regs : Buffer) × Holds dt regs × Writes regs ok ts

-- The four ways in which the last two writes can end.
whole-Writes :
    (dt : RtcDateTime) (c : ℕ) (set run : Bool)
    → c < 256
    → Writes (encode_datetime_regs dt) set (
        wrote pcf8523_addr (0 ∷ run_of c ∷ []) run
        ∷ wrote pcf8523_addr (3 ∷ encode_datetime_regs dt) set
        ∷ wrote pcf8523_addr (0 ∷ stop_of c ∷ []) true
        ∷ asked
        ∷ [])
unfolding encode_datetime_regs
whole-Writes dt c true true h = let k = bits_lem c h in (rw k.0 refl, rw k.1 refl, refl)
whole-Writes dt c true false h = let k = bits_lem c h in (rw k.0 refl, rw k.0 refl, refl)
whole-Writes dt c false true h = let k = bits_lem c h in (rw k.0 refl, rw k.1 refl, refl)
whole-Writes dt c false false h = let k = bits_lem c h in (rw k.0 refl, rw k.0 refl, refl)

after_stop-Writes :
    {B : Type 0} (bus : I2cDriver B) (dt : RtcDateTime) (c : ℕ) (stopped : Bool) (b : B)
    → c < 256
    → let r =
        after_stop
          (recorded bus)
          c
          dt
          (stopped, (b, wrote pcf8523_addr (0 ∷ stop_of c ∷ []) stopped ∷ asked ∷ [])) in
      Writes (encode_datetime_regs dt) r.0 r.1.1
after_stop-Writes bus dt c false b h = (refl, refl, refl)
after_stop-Writes bus dt c true b h = whole-Writes dt c _ _ h

after_control-Writes :
    {B : Type 0} (bus : I2cDriver B) (dt : RtcDateTime) (answer : Option Buffer) (b : B)
    → let r = after_control (recorded bus) dt (answer, (b, asked ∷ [])) in
      Writes (encode_datetime_regs dt) r.0 r.1.1
after_control-Writes bus dt none b = (refl, refl, refl)
after_control-Writes bus dt (some regs) b =
    after_stop-Writes bus dt (u8 (byte_at 0 regs)) _ _ (omega arith)

-- Two digits written are read back.
written_digits : (v : ℕ) → v < 100 → digits (dec_to_bcd v) ≡ v
written_digits v h = rw (dec_to_bcd-sum v h) (omega arith)

written_byte : (v : ℕ) → v < 100 → digits (dec_to_bcd (u8 v)) ≡ v
written_byte v h = let fits : u8 v ≡ v = omega arith in rw fits (written_digits v h)

encode_datetime_regs-Holds :
    (dt : RtcDateTime) → in_calendar dt ≡ true → dt.year < 2100 → Holds dt (encode_datetime_regs dt)
unfolding encode_datetime_regs
encode_datetime_regs-Holds dt h hy =
    let (mo, d, ho, mi, se, y) = bounds dt h in
    let short : min (dt.year - 2000) 99 ≡ dt.year - 2000 = omega arith in
    let year : 2000 + digits (dec_to_bcd (min (dt.year - 2000) 99)) ≡ dt.year =
      rw (short, written_digits (dt.year - 2000) (omega arith)) (omega arith) in
    holds _ _ _ _ _ _ _ (written_byte dt.second (omega arith))
      (written_byte dt.minute (omega arith)) (written_byte dt.hour (omega arith))
      (written_byte dt.day (omega arith)) (written_byte dt.month (omega arith)) year

-- However the bus answers, a call that writes a time of the years 2020 to 2099 writes the registers of
-- the time only while the clock stands still, leaves a clock that ran before running unless its last
-- transfer fails, and succeeds exactly if the time has been written: then the seven registers hold, in
-- the chip's order and in two decimal digits each, the time that was asked for.
pub write_datetime-Stops :
    {B : Type 0} (bus : I2cDriver B) (dt : RtcDateTime) (b : B)
    → in_calendar dt ≡ true
    → dt.year < 2100
    → let r = write_datetime (recorded bus) dt (b, []) in Stops dt r.0 r.1.1
unfolding write_datetime
write_datetime-Stops bus dt b valid century = (
  encode_datetime_regs dt,
  encode_datetime_regs-Holds dt valid century,
  after_control-Writes bus dt _ _,
)
