-- ===== src/Ntp/Mode6/Frame.antt =====
-- The framing of control answers, `build_mode6_response` of src/ntp/mod.rs.
use Prim.Native.Nat.{bit_or}
use rust_gps_ntp.Common.{
  ℕ, zero, suc, ◌+◌, ◌-◌, ◌*◌, ◌/◌, ◌%◌, ◌^◌, min, ◌≤◌, ◌<◌, ◌≡◌, refl, sym, ap, ◌∙◌, inl, inr,
  Bool, true, false, Option, [], ◌∷◌, ◌++◌, ltb, ◌==◌, if◌then◌else◌, length, take, drop, ==_iff,
  length-append, length-take, arith, Bool-cases, subst, append-nil, append_assoc, take-append,
}
use rust_gps_ntp.Common.Bits.{bit_or-disjoint, check_below, check_below_sound}
use rust_gps_ntp.Ntp.Bytes.{Buffer, from_be_bytes, byte_at, slice, from_be_bytes-two}
use rust_gps_ntp.Ntp.Packet.{mode_control, reply_version}
use rust_gps_ntp.Ntp.Mode6.{pad, mode6_header, mode6_frame, mode6_response_bit, mode6_error_bit}
use rust_gps_ntp.Ntp.Server.{is_some}
use rust_gps_ntp.Common.Words.{u8}
use rust_gps_ntp.Ntp.Packet.Decode.{reply_version_bounds}

-- The padding adds to the end, up to a multiple of four.
pad_lem :
    (fuel : ℕ) (b : Buffer)
    → (4 - length b % 4) % 4 ≤ fuel
    → (zs : Buffer) × (pad fuel b ≡ b ++ zs) × (length (b ++ zs) % 4 ≡ 0)
unfolding pad
pad_lem zero b h = ([], sym (append-nil b), rw (append-nil b) (omega arith))
pad_lem (suc fuel) b h = elim (Bool-cases (length b % 4 == 0)) [
  | inl e ↦ ([], rw (e, append-nil b) refl, rw (append-nil b) (ground arith))
  | inr e ↦
      let more = length-append b (0 ∷ []) in
      let (zs, same, whole) = pad_lem fuel (b ++ 0 ∷ []) (ground (arith, more)) in
      (
        0 ∷ zs,
        rw e (same ∙ append_assoc b (0 ∷ []) zs),
        subst (λ l. length l % 4 ≡ 0) (append_assoc b (0 ∷ []) zs) whole,
      )
]

-- The header of a control packet and its payload.
pub record Control : Type 0 where
  pub mode : ℕ
  pub version : ℕ
  pub is_response : Bool
  pub is_error : Bool
  pub opcode : ℕ
  pub sequence : Buffer
  pub status : ℕ
  pub associd : Buffer
  pub offset : ℕ
  pub count : ℕ
  pub payload : Buffer

-- A reader of control packets, independent of the code that writes them.
unfoldable pub decode_control : Buffer → Control
decode_control p = record {
  mode = byte_at 0 p % 8;
  version = byte_at 0 p / 8 % 8;
  is_response = byte_at 1 p / 128 == 1;
  is_error = byte_at 1 p / 64 % 2 == 1;
  opcode = byte_at 1 p % 32;
  sequence = slice 2 2 p;
  status = from_be_bytes (slice 4 2 p);
  associd = slice 6 2 p;
  offset = from_be_bytes (slice 8 2 p);
  count = from_be_bytes (slice 10 2 p);
  payload = take (from_be_bytes (slice 10 2 p)) (drop 12 p);
}

-- The two bytes that hold flags, in sums.
abbrev flags_ok : Bool → ℕ → Bool
flags_ok e o =
    bit_or (bit_or mode6_response_bit (if e then mode6_error_bit else 0)) o
    == 128 + (if e then 64 else 0) + o

flags_table : (e : Bool) → check_below 32 (flags_ok e) ≡ true
unfolding check_below
flags_table true = refl
flags_table false = refl

flags-sum :
    (e : Bool) (o : ℕ)
    → o < 32
    → bit_or (bit_or mode6_response_bit (if e then mode6_error_bit else 0)) o
      ≡ 128 + (if e then 64 else 0) + o
flags-sum e o h = (==_iff _ _).0 (check_below_sound 32 (flags_ok e) o (flags_table e) h)

flags-read :
    (e : Bool) (o : ℕ)
    → o < 32
    → let b = 128 + (if e then 64 else 0) + o in
      ((b / 128 == 1) ≡ true) × ((b / 64 % 2 == 1) ≡ e) × (b % 32 ≡ o)
flags-read true o h = (ground arith, ground arith, omega arith)
flags-read false o h = (ground arith, ground arith, omega arith)

head-sum : (v : ℕ) → v ≤ 4 → bit_or (u8 (v * 2 ^ 3)) mode_control ≡ v * 8 + 6
head-sum v h =
    let small : u8 (v * 2 ^ 3) ≡ v * 2 ^ 3 = omega arith in
    rw small (bit_or-disjoint 3 v 6 (omega arith))

module _ (req : Buffer) (version status : ℕ) (error : Option ℕ) (payload : Buffer) where
  abbrev count_of : ℕ
  count_of = min (length payload) (2 ^ 16 - 1)

  abbrev head_of : Buffer
  head_of = mode6_header req version status error count_of

  -- A frame is its header, the payload and zeros.
  mode6_frame-parts :
      (zs : Buffer) × (mode6_frame req version status error payload
        ≡ head_of ++ (take count_of payload ++ zs))
      × (length (mode6_frame req version status error payload) % 4 ≡ 0)
  unfolding mode6_frame mode6_header
  mode6_frame-parts = elim (Bool-cases (ltb 0 count_of)) [
    | inl e ↦
        let b = head_of ++ take count_of payload in
        let (zs, same, whole) = pad_lem 3 b (omega arith) in
        (zs, rw e (same ∙ append_assoc head_of (take count_of payload) zs), rw (e, same) whole)
    | inr e ↦ let none_left : count_of ≡ 0 = ground arith in ([], rw (e, none_left) refl, rw e refl)
  ]

-- What the frame of an answer stands for.
abbrev pub control_header : Buffer → ℕ → ℕ → Option ℕ → Buffer → Control
control_header req version status error payload = record {
  mode = 6;
  version = reply_version version;
  is_response = true;
  is_error = is_some error;
  opcode = byte_at 1 req % 32;
  sequence = slice 2 2 req;
  status = status;
  associd = slice 6 2 req;
  offset = 0;
  count = min (length payload) (2 ^ 16 - 1);
  payload = take (min (length payload) (2 ^ 16 - 1)) payload;
}

-- A control answer, read back: a response in the control mode, with the version that is answered,
-- the opcode, the sequence number and the association of the request, the error flag where there is
-- an error, the status, and the payload, cut off at 65535 bytes. Its length is a multiple of four.
pub decode_control-mode6_frame :
    (req : Buffer) (version status : ℕ) (error : Option ℕ) (payload : Buffer)
    → status < 2 ^ 16
    → (decode_control (mode6_frame req version status error payload)
        ≡ control_header req version status error payload)
      × (length (mode6_frame req version status error payload) % 4 ≡ 0)
unfolding decode_control mode6_header
decode_control-mode6_frame req version status error payload h =
    let (zs, same, whole) = mode6_frame-parts req version status error payload in
    let n = min (length payload) (2 ^ 16 - 1) in
    let body = take n payload in
    let vn = reply_version version in
    let flags = flags-read (is_some error) (byte_at 1 req % 32) (omega arith) in
    let fits : length body ≡ n = omega (arith, length-take n payload) in
    let pay : take n (body ++ zs) ≡ body =
      ap (λ k. take k (body ++ zs)) (sym fits) ∙ take-append body zs in
    let small = reply_version_bounds version in
    let low : (vn * 8 + 6) % 8 ≡ 6 = omega arith in
    let top : (vn * 8 + 6) / 8 % 8 ≡ vn = omega (arith, small.1) in
    (
      ap decode_control same
          ∙ rw
              (
                head-sum vn (reply_version_bounds version).1,
                flags-sum (is_some error) (byte_at 1 req % 32) (omega arith),
                from_be_bytes-two status h,
                from_be_bytes-two n (omega arith),
                low,
                top,
                flags.0,
                flags.1,
                flags.2,
                pay,
              )
              refl,
      whole,
    )

-- The first two bytes of an answer: the control mode, and the response bit.
pub mode6_frame-flags :
    (req : Buffer) (version status : ℕ) (error : Option ℕ) (payload : Buffer)
    → let p = mode6_frame req version status error payload in
      (byte_at 0 p % 8 ≡ 6) × ((byte_at 1 p / 2 ^ 7 % 2 == 0) ≡ false)
unfolding mode6_header
mode6_frame-flags req version status error payload =
    let (zs, same, whole) = mode6_frame-parts req version status error payload in
    let vn = reply_version version in
    let head = head-sum vn (reply_version_bounds version).1 in
    let flags = flags-sum (is_some error) (byte_at 1 req % 32) (omega arith) in
    (
      ap (λ p. byte_at 0 p % 8) same ∙ rw head (omega arith),
      ap (λ p. byte_at 1 p / 2 ^ 7 % 2 == 0) same ∙ rw flags (high (is_some error) (byte_at 1 req)),
    )
  where
    high : (e : Bool) (b : ℕ) → ((128 + (if e then 64 else 0) + b % 32) / 2 ^ 7 % 2 == 0) ≡ false
    high true b = ground arith
    high false b = ground arith
