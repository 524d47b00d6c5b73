-- ===== src/Ntp/Packet.antt =====
-- The 48-byte replies of src/ntp/mod.rs: `reply_version`, `build_kod_response`, `build_response`.
pub mod Decode
use Prim.Native.Nat.{bit_or}
use Prim.Native.Char.{code}
use Prim.Native.String.{String}
use rust_gps_ntp.Common.{
  ℕ, ◌+◌, ◌-◌, ◌*◌, ◌/◌, ◌%◌, ◌^◌, Bool, List, [], ◌∷◌, ◌&&◌, replicate, ltb, leb, ◌==◌,
  if◌then◌else◌,
}
use rust_gps_ntp.Common.Int.{ℤ, pos, negsuc}
use rust_gps_ntp.Common.Words.{u8}
use rust_gps_ntp.Ntp.Bytes.{Buffer, to_be_bytes, byte_at, slice, write_at}

abbrev pub ntp_packet_len : ℕ
ntp_packet_len = 48

abbrev pub mode_client : ℕ
mode_client = 3

abbrev pub mode_symmetric_active : ℕ
mode_symmetric_active = 1

abbrev pub mode_symmetric_passive : ℕ
mode_symmetric_passive = 2

abbrev pub mode_server : ℕ
mode_server = 4

abbrev pub mode_control : ℕ
mode_control = 6

abbrev pub stratum_unsync : ℕ
stratum_unsync = 16

pub data DisciplineState : Type 0 where
  locked holdover unsync : DisciplineState

-- `DisciplineParams`, over the type of the dispersion in milliseconds.
pub record DisciplineParams (F64 : Type 0) : Type 0 where
  pub stratum : ℕ
  pub state : DisciplineState
  pub leap : ℕ
  pub root_disp_short : ℕ
  pub root_disp_ms : F64
  pub ref_ts : ℕ
  pub current_ts : ℕ
  pub precision : ℤ

abbrev pub codes : String → Buffer
codes String.[] = []
codes (String.◌∷◌ c s) = code c ∷ codes s

abbrev pub kod_kiss_rate : Buffer
kod_kiss_rate = codes "RATE"

-- `b"GPS\0"` and `b"INIT"`.
abbrev pub ref_id_gps : Buffer
ref_id_gps = b'G' ∷ b'P' ∷ b'S' ∷ 0 ∷ []

abbrev pub ref_id_init : Buffer
ref_id_init = codes "INIT"

-- `as u8` of an `i8`.
abbrev pub byte_of_i8 : ℤ → ℕ
byte_of_i8 (pos n) = n % 256
byte_of_i8 (negsuc n) = 255 - n % 256

unfoldable pub reply_version : ℕ → ℕ
reply_version request_vn = if leb 1 request_vn && leb request_vn 4 then request_vn else 4

-- `(leap << 6) | (version << 3) | (mode & 7)`, in eight bits.
unfoldable pub first_byte : ℕ → ℕ → ℕ → ℕ
first_byte leap version mode = bit_or (bit_or (u8 (leap * 2 ^ 6)) (u8 (version * 2 ^ 3))) (mode % 8)

-- The zeroed reply buffer.
abbrev pub zeros : Buffer
zeros = replicate ntp_packet_len 0

unfoldable pub build_kod_response : Buffer → ℕ → ℕ → Buffer
unfolding first_byte reply_version
build_kod_response req version reply_mode =
    let head = write_at 0 (first_byte 3 (reply_version version) reply_mode ∷ 0 ∷ []) zeros in
    let refid = write_at 12 kod_kiss_rate head in write_at 24 (slice 40 8 req) refid

module _ {F64 : Type 0} where
  unfoldable pub build_response : Buffer → DisciplineParams F64 → ℕ → ℕ → Buffer
  unfolding first_byte reply_version
  build_response req dp receive_ts reply_mode =
      let version = reply_version (byte_at 0 req / 2 ^ 3 % 8) in
      let stratum = if leb stratum_unsync dp.stratum then 0 else dp.stratum in
      let head =
        write_at 0
          (first_byte dp.leap version reply_mode
            ∷ stratum
            ∷ byte_at 2 req
            ∷ byte_of_i8 dp.precision
            ∷ [])
          zeros in
      let delay = write_at 4 (to_be_bytes 4 0) head in
      let disp = write_at 8 (to_be_bytes 4 dp.root_disp_short) delay in
      let refid = write_at 12 (if dp.stratum == 1 then ref_id_gps else ref_id_init) disp in
      let reference =
        write_at 16 (to_be_bytes 8 (if dp.stratum == 1 then dp.ref_ts else 0)) refid in
      let originate = write_at 24 (slice 40 8 req) reference in
      write_at 32 (to_be_bytes 8 receive_ts) originate

-- `poll` fills the transmit timestamp in just before it sends.
unfoldable pub stamp_transmit : ℕ → Buffer → Buffer
stamp_transmit transmit_ts resp = write_at 40 (to_be_bytes 8 transmit_ts) resp
