-- ===== src/Ntp/Mode6.antt =====
-- The answers to control queries, `build_mode6_response` and `ntp_ts_to_mode6` of src/ntp/mod.rs.
pub mod Frame
use Prim.Native.Nat.{bit_or}
use rust_gps_ntp.Common.{
  ℕ, zero, suc, ◌+◌, ◌-◌, ◌*◌, ◌/◌, ◌%◌, ◌^◌, min, Bool, true, false, Option, none, some, List, [],
  ◌∷◌, ◌++◌, ◌&&◌, not, ltb, ◌==◌, if◌then◌else◌, length, take,
}
use rust_gps_ntp.Common.Int.{ℤ, pos}
use rust_gps_ntp.Common.Decimal.{print_u8, print_i8, print_hex}
use rust_gps_ntp.Common.Words.{u8, u16}
use rust_gps_ntp.Ntp.Bytes.{Buffer, to_be_bytes, from_be_bytes, byte_at, slice}
use rust_gps_ntp.Ntp.Float.{Floats}
use rust_gps_ntp.Ntp.Packet.{DisciplineParams, codes, mode_control, reply_version}
use rust_gps_ntp.Ntp.Params.{ServoStats}
use rust_gps_ntp.Ntp.Server.{is_some}

abbrev pub ntp_control_header_len : ℕ
ntp_control_header_len = 12

abbrev pub mode6_opcode_readstat : ℕ
mode6_opcode_readstat = 1

abbrev pub mode6_opcode_readvar : ℕ
mode6_opcode_readvar = 2

abbrev pub mode6_assoc_id : ℕ
mode6_assoc_id = 1

abbrev pub mode6_err_bad_opcode : ℕ
mode6_err_bad_opcode = 3

abbrev pub mode6_err_bad_assoc : ℕ
mode6_err_bad_assoc = 4

abbrev pub mode6_response_bit : ℕ
mode6_response_bit = 0x80

abbrev pub mode6_error_bit : ℕ
mode6_error_bit = 0x40

unfoldable pub ntp_ts_to_mode6 : ℕ → Buffer
ntp_ts_to_mode6 ts = codes "0x" ++ (print_hex 8 (ts / 2 ^ 32) ++ b'.' ∷ print_hex 8 (ts % 2 ^ 32))

-- `{:02b}` of the two bits of the leap indicator.
abbrev leap_str : ℕ → Buffer
leap_str leap = (b'0' + leap / 2 % 2) ∷ (b'0' + leap % 2) ∷ []

abbrev pub join : List Buffer → Buffer
join [] = []
join (b ∷ bs) = b ++ join bs

-- The word of the one association: selected and reachable, or only configured.
abbrev pub peer_status : Bool → ℕ
peer_status synced = if synced then 6 * 2 ^ 13 + 2 ^ 12 + 2 ^ 9 else 2 ^ 12

module _ (fl : Floats) where
  abbrev thousandth : fl.F64 → fl.F64
  thousandth x = fl.div x (fl.lit (pos 1_000) 0)

  -- A duration in milliseconds, with at least a microsecond in it.
  abbrev millis : fl.F32 → Buffer
  millis us = fl.format3 (thousandth (fl.widen (fl.max32 us (fl.lit32 (pos 1) 0))))

module _ {fl : Floats} where
  abbrev offset_ms : ServoStats fl → Buffer
  offset_ms stats = fl.format3 (thousandth fl (fl.of_int stats.stats_offset_us))

  unfoldable pub system_vars : DisciplineParams fl.F64 → ServoStats fl → Buffer
  unfolding print_u8 print_i8 ntp_ts_to_mode6
  system_vars dp stats =
      let root_delay = fl.format3 (fl.lit (pos 0) 0) in
      let root_disp = fl.format3 dp.root_disp_ms in
      let times = join (
        codes "refid="
        ∷ (if dp.stratum == 1 then codes "GPS" else codes "INIT")
        ∷ codes ",reftime="
        ∷ ntp_ts_to_mode6 dp.ref_ts
        ∷ codes ",clock="
        ∷ ntp_ts_to_mode6 dp.current_ts
        ∷ []) in
      let roots = join (
        codes ",precision="
        ∷ print_i8 dp.precision
        ∷ codes ",rootdelay="
        ∷ root_delay
        ∷ codes ",rootdisp="
        ∷ root_disp
        ∷ codes ","
        ∷ times
        ∷ []) in
      if dp.stratum == 1
      then (let jitter = millis fl stats.stats_jitter_us in
          let freq = stats.stats_freq_ppm in
          join (
            codes "stratum="
            ∷ print_u8 dp.stratum
            ∷ codes ",leap="
            ∷ leap_str dp.leap
            ∷ roots
            ∷ codes ",offset="
            ∷ offset_ms stats
            ∷ codes ",frequency="
            ∷ (if fl.le (fl.lit (pos 0) 0) freq then codes "+" else [])
            ∷ fl.format3 freq
            ∷ codes ",sys_jitter="
            ∷ jitter
            ∷ codes ",clk_jitter="
            ∷ jitter
            ∷ codes ",clk_wander="
            ∷ fl.format3 (fl.abs freq)
            ∷ codes ",tc=7,mintc=3,peer=1,system=\"rust_gps_ntp\""
            ∷ []))
      else join (
          codes "stratum=16,leap=11"
          ∷ roots
          ∷ codes ",offset=0.000,frequency=+0.000,"
          ∷ codes "sys_jitter=0.000,clk_jitter=0.000,clk_wander=0.000,"
          ∷ codes "tc=7,mintc=3,peer=0,system=\"rust_gps_ntp\""
          ∷ [])

  unfoldable pub peer_vars : DisciplineParams fl.F64 → ServoStats fl → Buffer
  unfolding print_u8
  peer_vars dp stats =
      if dp.stratum == 1
      then (let offset = offset_ms stats in
          let jitter = millis fl stats.stats_jitter_us in
          let delay = millis fl stats.stats_proc_delay_us in
          join (
            codes "srcadr=GPS,srcport=123,refid=GPS,stratum="
            ∷ print_u8 dp.stratum
            ∷ codes ",leap="
            ∷ leap_str dp.leap
            ∷ codes ",hmode=3,pmode=4,hpoll=6,ppoll=6,reach=255,delay="
            ∷ delay
            ∷ codes ",offset="
            ∷ offset
            ∷ codes ",jitter="
            ∷ jitter
            ∷ codes ",dispersion="
            ∷ fl.format3 dp.root_disp_ms
            ∷ codes ",xleave=0.000,filtdelay="
            ∷ delay
            ∷ codes ",filtoffset="
            ∷ offset
            ∷ codes ",filtdisp="
            ∷ jitter
            ∷ []))
      else join (
          codes "srcadr=INIT,srcport=123,refid=INIT,stratum=16,leap=11,hmode=3,pmode=4,"
          ∷ codes "hpoll=6,ppoll=6,reach=0,delay=0.001,offset=0.000,jitter=0.000,"
          ∷ codes "dispersion=5000.000,xleave=0.000,"
          ∷ codes "filtdelay=0.001,filtoffset=0.000,filtdisp=5000.000"
          ∷ [])

-- The payload of an answer, or the code of an error. The texts are arguments.
unfoldable pub mode6_answer : Bool → ℕ → ℕ → Buffer → Buffer → Buffer × Option ℕ
mode6_answer synced opcode associd system peer =
    if opcode == mode6_opcode_readstat
    then (if associd == 0
        then (to_be_bytes 2 mode6_assoc_id ++ to_be_bytes 2 (peer_status synced), none)
        else if associd == mode6_assoc_id
        then ([], none)
        else ([], some mode6_err_bad_assoc))
    else if opcode == mode6_opcode_readvar
    then (if associd == 0
        then (system, none)
        else if associd == mode6_assoc_id
        then (peer, none)
        else ([], some mode6_err_bad_assoc))
    else ([], some mode6_err_bad_opcode)

unfoldable pub mode6_status : Bool → ℕ → ℕ → ℕ → Option ℕ → ℕ
mode6_status synced leap opcode associd (some code) = u16 (code * 2 ^ 8)
mode6_status synced leap opcode associd none =
    if opcode == mode6_opcode_readstat && not (associd == 0)
    then peer_status synced
    else bit_or (u16 (leap * 2 ^ 14)) ((if synced then 4 else 0) * 2 ^ 8)

-- `resp.push(0)` until the length is a multiple of 4: three pushes are enough.
unfoldable pub pad : ℕ → Buffer → Buffer
pad zero b = b
pad (suc fuel) b = let rest = pad fuel (b ++ 0 ∷ []) in if length b % 4 == 0 then b else rest

unfoldable pub mode6_header : Buffer → ℕ → ℕ → Option ℕ → ℕ → Buffer
unfolding reply_version
mode6_header req version status error count =
    bit_or (u8 (reply_version version * 2 ^ 3)) mode_control
    ∷ bit_or (bit_or mode6_response_bit (if is_some error then mode6_error_bit else 0))
        (byte_at 1 req % 2 ^ 5)
    ∷ byte_at 2 req
    ∷ byte_at 3 req
    ∷ (to_be_bytes 2 status ++ (slice 6 2 req ++ (to_be_bytes 2 0 ++ to_be_bytes 2 count)))

-- The header and the payload around an answer.
unfoldable pub mode6_frame : Buffer → ℕ → ℕ → Option ℕ → Buffer → Buffer
unfolding mode6_header pad
mode6_frame req version status error payload =
    let count = min (length payload) (2 ^ 16 - 1) in
    let header = mode6_header req version status error count in
    let padded = pad 3 (header ++ take count payload) in if ltb 0 count then padded else header

module _ {fl : Floats} where
  unfoldable pub build_mode6_response :
      Buffer → ℕ → DisciplineParams fl.F64 → ServoStats fl → Buffer
  unfolding mode6_answer mode6_status mode6_frame system_vars peer_vars
  build_mode6_response req version dp stats =
      let opcode = byte_at 1 req % 2 ^ 5 in
      let associd = from_be_bytes (slice 6 2 req) in
      let synced = dp.stratum == 1 in
      let answer = mode6_answer synced opcode associd (system_vars dp stats) (peer_vars dp stats) in
      mode6_frame req version (mode6_status synced dp.leap opcode associd answer.1) answer.1
        answer.0
