-- ===== src/Ntp/Packet/Decode.antt =====
-- What a client reads from the replies: the fields of RFC 5905 at their offsets.
use rust_gps_ntp.Common.{
  ℕ, ◌+◌, ◌*◌, ◌/◌, ◌%◌, ◌^◌, ◌≤◌, ◌<◌, ◌≡◌, refl, ◌∙◌, Bool, true, arith, leb, ◌==◌, if◌then◌else◌,
  ==_iff, Bool-cases, inl, inr,
}
use rust_gps_ntp.Common.Bits.{check_below, check_below_sound}
use rust_gps_ntp.Ntp.Bytes.{
  Buffer, from_be_bytes, byte_at, slice, from_be_bytes-four, from_be_bytes-eight,
}
use rust_gps_ntp.Ntp.Packet.{
  DisciplineParams, byte_of_i8, reply_version, first_byte, kod_kiss_rate, ref_id_gps, ref_id_init,
  build_kod_response, build_response, stamp_transmit, stratum_unsync,
}

pub record Header : Type 0 where
  pub leap : ℕ
  pub version : ℕ
  pub mode : ℕ
  pub stratum : ℕ
  pub poll : ℕ
  pub precision : ℕ
  pub root_delay : ℕ
  pub root_disp : ℕ
  pub ref_id : Buffer
  pub reference_ts : ℕ
  pub originate : Buffer
  pub receive_ts : ℕ
  pub transmit_ts : ℕ

-- A reader of packets, independent of the code that writes them.
unfoldable pub decode : Buffer → Header
decode p = record {
  leap = byte_at 0 p / 64;
  version = byte_at 0 p / 8 % 8;
  mode = byte_at 0 p % 8;
  stratum = byte_at 1 p;
  poll = byte_at 2 p;
  precision = byte_at 3 p;
  root_delay = from_be_bytes (slice 4 4 p);
  root_disp = from_be_bytes (slice 8 4 p);
  ref_id = slice 12 4 p;
  reference_ts = from_be_bytes (slice 16 8 p);
  originate = slice 24 8 p;
  receive_ts = from_be_bytes (slice 32 8 p);
  transmit_ts = from_be_bytes (slice 40 8 p);
}

first_bytes_ok : ℕ → ℕ → ℕ → Bool
first_bytes_ok l v m = first_byte l v m == l * 64 + v * 8 + m

first_bytes_table :
    check_below 4 (λ l. check_below 8 (λ v. check_below 8 (λ m. first_bytes_ok l v m))) ≡ true
unfolding check_below first_bytes_ok first_byte
first_bytes_table = refl

pub first_byte-sum : (l v m : ℕ) → l < 4 → v < 8 → m < 8 → first_byte l v m ≡ l * 64 + v * 8 + m
unfolding first_bytes_ok
first_byte-sum l v m hl hv hm = (==_iff _ _).0 (
    check_below_sound 8 (λ k. first_bytes_ok l v k) m
      (check_below_sound 8 (λ k. check_below 8 (λ n. first_bytes_ok l k n)) v
        (check_below_sound 4 (λ k. check_below 8 (λ n. check_below 8 (λ o. first_bytes_ok k n o))) l
          first_bytes_table hl)
        hv)
      hm)

pub reply_version_bounds : (v : ℕ) → (1 ≤ reply_version v) × (reply_version v ≤ 4)
unfolding reply_version
reply_version_bounds v = ground arith

module _ {F64 : Type 0} (req : Buffer) (dp : DisciplineParams F64) (receive_ts mode : ℕ) where
  -- The header that a time reply stands for.
  abbrev pub reply_header : ℕ → Header
  reply_header transmit_ts = record {
    leap = dp.leap;
    version = reply_version (byte_at 0 req / 2 ^ 3 % 8);
    mode = mode;
    stratum = if leb stratum_unsync dp.stratum then 0 else dp.stratum;
    poll = byte_at 2 req;
    precision = byte_of_i8 dp.precision;
    root_delay = 0;
    root_disp = dp.root_disp_short;
    ref_id = if dp.stratum == 1 then ref_id_gps else ref_id_init;
    reference_ts = if dp.stratum == 1 then dp.ref_ts else 0;
    originate = slice 40 8 req;
    receive_ts = receive_ts;
    transmit_ts = transmit_ts;
  }

  -- A client that decodes the reply reads back what the server meant: the leap indicator, the
  -- request's version or 4, the reply mode, stratum 0 in place of 16, the client's poll interval and
  -- transmit timestamp, and the dispersion and timestamps as they were, where each of them is in
  -- the range of its field.
  pub decode-build_response :
      (transmit_ts : ℕ)
      → dp.leap < 4
      → mode < 8
      → dp.root_disp_short < 2 ^ 32
      → dp.ref_ts < 2 ^ 64
      → receive_ts < 2 ^ 64
      → transmit_ts < 2 ^ 64
      → decode (stamp_transmit transmit_ts (build_response req dp receive_ts mode))
        ≡ reply_header transmit_ts
  unfolding decode stamp_transmit build_response
  decode-build_response transmit_ts hl hm hd hr hx ht =
      let version = reply_version (byte_at 0 req / 2 ^ 3 % 8) in
      let small = reply_version_bounds (byte_at 0 req / 2 ^ 3 % 8) in
      let first = first_byte-sum dp.leap version mode hl (omega (arith, small.1)) hm in
      let sent = if dp.stratum == 1 then dp.ref_ts else 0 in
      let reference = from_be_bytes-eight sent (ground arith) in
      let byte = dp.leap * 64 + version * 8 + mode in
      let top : byte / 64 ≡ dp.leap = omega (arith, small.1) in
      let middle : byte / 8 % 8 ≡ version = omega (arith, small.1) in
      let low : byte % 8 ≡ mode = omega (arith, small.1) in
      elim (Bool-cases (dp.stratum == 1)) [
        | inl one ↦
            let same : sent ≡ dp.ref_ts = rw one in
            rw (
              one,
              build_response,
              first,
              top,
              middle,
              low,
              from_be_bytes-four dp.root_disp_short hd,
              reference ∙ same,
              from_be_bytes-eight receive_ts hx,
              from_be_bytes-eight transmit_ts ht,
            )
        | inr other ↦
            let same : sent ≡ 0 = rw other in
            rw (
              other,
              build_response,
              first,
              top,
              middle,
              low,
              from_be_bytes-four dp.root_disp_short hd,
              reference ∙ same,
              from_be_bytes-eight receive_ts hx,
              from_be_bytes-eight transmit_ts ht,
            )
      ]

-- The header that a refusal stands for.
abbrev pub kod_header : Buffer → ℕ → ℕ → Header
kod_header req version mode = record {
  leap = 3;
  version = reply_version version;
  mode = mode;
  stratum = 0;
  poll = 0;
  precision = 0;
  root_delay = 0;
  root_disp = 0;
  ref_id = kod_kiss_rate;
  reference_ts = 0;
  originate = slice 40 8 req;
  receive_ts = 0;
  transmit_ts = 0;
}

-- A limited client that decodes the reply finds a kiss of death: alarm, stratum 0, the kiss code,
-- its own transmit timestamp as the origin, and zeros for all else.
pub decode-build_kod_response :
    (req : Buffer) (version mode : ℕ)
    → mode < 8
    → decode (build_kod_response req version mode) ≡ kod_header req version mode
unfolding decode build_kod_response
decode-build_kod_response req version mode hm =
    let vn = reply_version version in
    let small = reply_version_bounds version in
    let first = first_byte-sum 3 vn mode (omega arith) (omega (arith, small.1)) hm in
    let byte = 3 * 64 + vn * 8 + mode in
    let top : byte / 64 ≡ 3 = omega (arith, small.1) in
    let middle : byte / 8 % 8 ≡ vn = omega (arith, small.1) in
    let low : byte % 8 ≡ mode = omega (arith, small.1) in rw (first, top, middle, low)
