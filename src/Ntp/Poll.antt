-- ===== src/Ntp/Poll.antt =====
-- `poll` of src/ntp/mod.rs and `try_rate_limit`: what the server does with each datagram. The clock
-- readings of one pass, whether a send succeeds and what the socket delivers are arguments.
pub mod Replies
use rust_gps_ntp.Common.{
  ℕ, zero, suc, ◌+◌, ◌*◌, ◌/◌, ◌%◌, ◌^◌, Bool, true, false, Option, none, some, List, [], ◌∷◌, ◌&&◌,
  ◌||◌, not, ltb, leb, ◌==◌, if◌then◌else◌, length,
}
use rust_gps_ntp.Common.Int.{ℤ}
use rust_gps_ntp.Ntp.Bytes.{Buffer, byte_at}
use rust_gps_ntp.Ntp.Float.{Floats}
use rust_gps_ntp.Ntp.Mode6.{build_mode6_response, mode6_response_bit, ntp_control_header_len}
use rust_gps_ntp.Ntp.Packet.{
  mode_client, mode_symmetric_active, mode_symmetric_passive, mode_server, mode_control,
  ntp_packet_len, build_kod_response, build_response, stamp_transmit,
}
use rust_gps_ntp.Ntp.Params.{discipline_params, servo_stats}
use rust_gps_ntp.Ntp.Server.{NtpServer, current_ntp_timestamp, record_proc_delay}
use rust_gps_ntp.Protection.Acl.{allows}
use rust_gps_ntp.Protection.Limiter.{check}

-- `SocketAddr`, as far as the server looks at it.
pub data Peer : Type 0 where
  v4 : ℕ → Peer
  v6 : Peer

-- The clock readings of one pass, in the order in which they are taken: `monotonic_us_now` or, for
-- `wall`, the time of the system without an anchor.
pub record Readings : Type 0 where
  pub received_us : ℤ
  pub received_wall : ℕ
  pub limited_us : ℤ
  pub params_us : ℤ
  pub current_us : ℤ
  pub current_wall : ℕ
  pub started_us : ℤ
  pub transmit_us : ℤ
  pub transmit_wall : ℕ
  pub finished_us : ℤ

-- A pass leaves the server, at most one datagram for the socket, and `poll` goes on or fails.
pub record Outcome (fl : Floats) : Type 0 where
  pub next : NtpServer fl
  pub sent : Option Buffer
  pub goes_on : Bool

abbrev pub request_mode : Buffer → ℕ
request_mode req = byte_at 0 req % 8

abbrev pub request_version : Buffer → ℕ
request_version req = byte_at 0 req / 2 ^ 3 % 8

abbrev pub reply_mode_of : Buffer → ℕ
reply_mode_of req = if request_mode req == mode_client then mode_server else mode_symmetric_passive

module _ {fl : Floats} where
  abbrev pub drop_packet : NtpServer fl → Outcome fl
  drop_packet s = record { next = s; sent = none; goes_on = true }

  abbrev pub acl_allows : NtpServer fl → Peer → Bool
  acl_allows s (v4 ip) = allows s.acl ip
  acl_allows s v6 = true

  unfoldable pub try_rate_limit : Peer → ℤ → NtpServer fl → Bool × NtpServer fl
  unfolding check
  try_rate_limit v6 now_us s = (true, s)
  try_rate_limit (v4 ip) now_us s =
      let (passes, limiter) = check ip now_us s.rate_limiter in
      if passes then (true, record s { rate_limiter = limiter }) else (
        false,
        record s { rate_limiter = limiter; rate_limited_total = s.rate_limited_total + 1 },
      )

  -- The end of a pass: an answer that is not sent ends the poll.
  unfoldable pub finish : Readings → Bool → Buffer → NtpServer fl → Outcome fl
  unfolding record_proc_delay
  finish r send_ok resp s =
      if send_ok
      then (let timed = record_proc_delay r.started_us r.finished_us s in
          record {
            next = record timed { served = timed.served + 1 };
            sent = some resp;
            goes_on = true;
          })
      else record { next = s; sent = some resp; goes_on = false }

  -- The answers to the two kinds of requests.
  unfoldable pub control_reply : Bool → Readings → Buffer → NtpServer fl → Buffer
  unfolding build_mode6_response
  control_reply gps_fix r req s =
      let dp = discipline_params s gps_fix r.params_us r.current_us r.current_wall in
      build_mode6_response req (request_version req) dp (servo_stats s)

  unfoldable pub time_reply : Bool → Readings → Buffer → ℕ → ℕ → NtpServer fl → Buffer
  unfolding build_response
  time_reply gps_fix r req receive_ts reply_mode s =
      let dp = discipline_params s gps_fix r.params_us r.current_us r.current_wall in
      let transmit_ts = current_ntp_timestamp s r.transmit_us r.transmit_wall in
      stamp_transmit transmit_ts (build_response req dp receive_ts reply_mode)

  unfoldable pub serve_control : Bool → Readings → Bool → Buffer → Peer → NtpServer fl → Outcome fl
  unfolding try_rate_limit finish control_reply
  serve_control gps_fix r send_ok req peer s =
      if ltb (length req) ntp_control_header_len || not (byte_at 1 req / 2 ^ 7 % 2 == 0)
      then drop_packet s
      else (let limited = try_rate_limit peer r.limited_us s in
          if limited.0
          then finish r send_ok (control_reply gps_fix r req limited.1) limited.1
          else drop_packet limited.1)

  -- A refusal is sent whatever becomes of it.
  abbrev pub refuse : Buffer → NtpServer fl → Outcome fl
  refuse kod s = record { next = s; sent = some kod; goes_on = true }

  unfoldable pub serve_time : Bool → Readings → Bool → Buffer → ℕ → Peer → NtpServer fl → Outcome fl
  unfolding try_rate_limit finish time_reply
  serve_time gps_fix r send_ok req receive_ts peer s =
      let mode = reply_mode_of req in
      if ltb (length req) ntp_packet_len
      then drop_packet s
      else (let limited = try_rate_limit peer r.limited_us s in
          if limited.0
          then finish r send_ok (time_reply gps_fix r req receive_ts mode limited.1) limited.1
          else refuse (build_kod_response req (request_version req) mode) limited.1)

  -- What one datagram of at least one byte makes the server do.
  unfoldable pub handle : Bool → Readings → Bool → Buffer → Peer → NtpServer fl → Outcome fl
  unfolding serve_control serve_time
  handle gps_fix r send_ok req peer s =
      let mode = request_mode req in
      let receive_ts = current_ntp_timestamp s r.received_us r.received_wall in
      if not (acl_allows s peer)
      then drop_packet (record s { acl_blocked_total = s.acl_blocked_total + 1 })
      else if mode == mode_control
      then serve_control gps_fix r send_ok req peer s
      else if mode == mode_client || mode == mode_symmetric_active
      then serve_time gps_fix r send_ok req receive_ts peer s
      else drop_packet s

-- What `recv_from` gives: a datagram, with the readings of its pass and whether an answer could be
-- sent, nothing yet, or an error.
pub data Received : Type 0 where
  datagram : Readings → Bool → Buffer → Peer → Received
  would_block failed : Received

module _ {fl : Floats} where
  -- The loop of `poll`: the server, what was given to the socket in order, and whether it was `Ok`.
  unfoldable pub poll : Bool → List Received → NtpServer fl → NtpServer fl × List Buffer × Bool
  unfolding handle
  poll gps_fix [] s = (s, [], true)
  poll gps_fix (would_block ∷ rest) s = (s, [], true)
  poll gps_fix (failed ∷ rest) s = (s, [], false)
  poll gps_fix (datagram r send_ok req peer ∷ rest) s =
      let out = handle gps_fix r send_ok req peer s in
      let skipped = poll gps_fix rest s in
      let later = poll gps_fix rest out.next in
      if length req == 0
      then skipped
      else if out.goes_on
      then (later.0, (elim out.sent [ none ↦ later.1 | some resp ↦ resp ∷ later.1 ]), later.2)
      else (out.next, (elim out.sent [ none ↦ [] | some resp ↦ resp ∷ [] ]), false)
