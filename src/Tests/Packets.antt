-- ===== src/Tests/Packets.antt =====
-- Timestamps and packets of src/ntp/mod.rs.
use rust_gps_ntp.Common.{ℕ, ◌≡◌, ◌%◌, none, ◌∷◌, arith, length, replicate}
use rust_gps_ntp.Common.Int.{negsuc}
use rust_gps_ntp.Ntp.Bytes.{Buffer}
use rust_gps_ntp.Ntp.Packet.{DisciplineParams, locked, build_response, stamp_transmit, codes}
use rust_gps_ntp.Ntp.Packet.Decode.{decode, reply_header, decode-build_response}
use rust_gps_ntp.Ntp.Mode6.{mode6_frame}
use rust_gps_ntp.Ntp.Mode6.Frame.{decode_control, control_header, decode_control-mode6_frame}

-- A client request in version 4, and a control query for the variables of the system.
abbrev request : Buffer
request = 35 ∷ replicate 47 9

abbrev query : Buffer
query = 38 ∷ 2 ∷ 0 ∷ 5 ∷ replicate 8 0

abbrev params : DisciplineParams ℕ
params = record {
  stratum = 1;
  state = locked;
  leap = 0;
  root_disp_short = 7;
  root_disp_ms = 0;
  ref_ts = 1_000;
  current_ts = 2_000;
  precision = negsuc 12;
}

decode-build_response_example :
    decode (stamp_transmit 3_000 (build_response request params 2_500 4))
    ≡ reply_header request params 2_500 4 3_000
decode-build_response_example =
    decode-build_response request params 2_500 4 3_000 (omega arith) (omega arith) (omega arith)
      (omega arith) (omega arith) (omega arith)

decode_control-mode6_frame_example :
    (decode_control (mode6_frame query 4 1_024 none (codes "stratum"))
      ≡ control_header query 4 1_024 none (codes "stratum"))
    × (length (mode6_frame query 4 1_024 none (codes "stratum")) % 4 ≡ 0)
decode_control-mode6_frame_example =
    decode_control-mode6_frame query 4 1_024 none (codes "stratum") (omega arith)
