-- ===== src/Tests/Clock.antt =====
-- The server of src/ntp/mod.rs on concrete runs, with whole numbers for the floating-point ones.
use rust_gps_ntp.Common.{
  All, ◌≡◌, ◌≤◌, ◌^◌, refl, none, some, [], ◌∷◌, arith, true, false, replicate, ltb, if◌then◌else◌,
  List, length,
}
use rust_gps_ntp.Common.Int.{
  ℤ, pos, ◌+ℤ◌, ◌-ℤ◌, ◌*ℤ◌, div_trunc, max_ℤ, min_ℤ, eqb_ℤ, leb_ℤ, nat_abs, pos_part,
}
use rust_gps_ntp.Common.Decimal.{print_i8}
use rust_gps_ntp.Common.Words.{saturating_sub}
use rust_gps_ntp.Ntp.Bytes.{Buffer}
use rust_gps_ntp.Ntp.Float.{Floats}
use rust_gps_ntp.Ntp.Life.{gps_updated, pulsed, run}
use rust_gps_ntp.Ntp.Life.Clock.{clock_of, run-IsServer}
use rust_gps_ntp.Ntp.Life.Batch.{datagrams, poll-replies}
use rust_gps_ntp.Ntp.Packet.{stratum_unsync}
use rust_gps_ntp.Ntp.Params.{discipline_params}
use rust_gps_ntp.Ntp.Params.Holdover.{stratum-age}
use rust_gps_ntp.Ntp.Poll.{
  v4, v6, Readings, handle, serve_time, try_rate_limit, finish, time_reply, Received, datagram,
  would_block, poll,
}
use rust_gps_ntp.Ntp.Poll.Replies.{is_request, handle-no_ping_pong}
use rust_gps_ntp.Ntp.Pulse.Lock.{IsServer}
use rust_gps_ntp.Ntp.Server.{current_ntp_timestamp, ClockAnchor, NtpServer, from_socket}

-- A literal is rounded to a whole number.
abbrev pub whole : Floats
whole = record {
  F64 = ℤ;
  F32 = ℤ;
  of_int = λ a. a;
  to_i64 = λ a. a;
  to_i8 = λ a. a;
  of_int32 = λ a. a;
  widen = λ a. a;
  lit = λ m d. div_trunc m (10 ^ d);
  lit32 = λ m d. div_trunc m (10 ^ d);
  add = λ a b. a +ℤ b;
  sub = λ a b. a -ℤ b;
  mul = λ a b. a *ℤ b;
  div = λ a b. div_trunc a (pos_part b);
  eq = eqb_ℤ;
  le = leb_ℤ;
  max = max_ℤ;
  abs = λ a. pos (nat_abs a);
  clamp = λ x lo hi. max_ℤ lo (min_ℤ x hi);
  log2 = λ a. a;
  floor = λ a. a;
  add32 = λ a b. a +ℤ b;
  mul32 = λ a b. a *ℤ b;
  div32 = λ a b. div_trunc a (pos_part b);
  max32 = max_ℤ;
  round_to_i64 = λ a. a;
  format3 = print_i8;
}

-- A server that has had one pulse, at second 100 of its monotonic clock.
abbrev pub anchor : ClockAnchor
anchor = record { unix_seconds = pos 1_700_000_000; monotonic_us = pos 100_000_000 }

abbrev pub locked_server : NtpServer whole
locked_server = record (from_socket whole) {
  clock_anchor = some anchor;
  pps_locked = true;
  last_pps_monotonic_us = some (pos 100_000_000);
  pending_gps_step = some (pos 1);
}

abbrev readings : Readings
readings = record {
  received_us = pos 101_000_000;
  received_wall = 0;
  limited_us = pos 101_000_001;
  params_us = pos 101_000_002;
  current_us = pos 101_000_003;
  current_wall = 0;
  started_us = pos 101_000_004;
  transmit_us = pos 101_000_005;
  transmit_wall = 0;
  finished_us = pos 101_000_009;
}

abbrev request : Buffer
request = 35 ∷ replicate 47 9

stratum-age_example :
    (discipline_params locked_server false (pos 700_000_000) (pos 700_000_000) 0).stratum
    ≡ (if ltb 600_000_000 2_008_000_000 then 1 else stratum_unsync)
unfolding from_socket saturating_sub
stratum-age_example =
    stratum-age locked_server false (pos 700_000_000) (pos 700_000_000) 0 600_000_000 anchor refl
      refl refl (omega arith)

run-IsServer_example : IsServer (
    run whole
      (pos 1)
      (gps_updated (pos 1_700_000_000) (pos 5_000_000) ∷ pulsed none (pos 5_500_000) ∷ []))
run-IsServer_example =
    run-IsServer whole (pos 1)
      (gps_updated (pos 1_700_000_000) (pos 5_000_000) ∷ pulsed none (pos 5_500_000) ∷ [])

-- The answer to the request.
abbrev answer : Buffer
answer =
    time_reply true readings request
      (current_ntp_timestamp locked_server readings.received_us readings.received_wall) 4
      locked_server

handle-no_ping_pong_example :
    (handle false readings true answer (v4 7) (from_socket whole)).sent ≡ none
unfolding handle serve_time try_rate_limit finish
handle-no_ping_pong_example =
    handle-no_ping_pong true false readings readings true true request answer v6 (v4 7)
      locked_server (from_socket whole) refl

abbrev deliveries : List Received
deliveries =
    datagram readings true request v6 ∷ datagram readings true answer (v4 7) ∷ would_block ∷ []

poll-replies_example :
    (clock_of (poll true deliveries locked_server).0 ≡ clock_of locked_server)
    × All (λ resp. is_request resp ≡ false) (poll true deliveries locked_server).1
    × (length (poll true deliveries locked_server).1 ≤ datagrams deliveries)
poll-replies_example = poll-replies true deliveries locked_server
