-- ===== src/Ntp/Poll/Replies.antt =====
-- Which datagrams are answered, and that no answer is one of them: `poll` of src/ntp/mod.rs.
use rust_gps_ntp.Common.{
  ℕ, ◌+◌, ◌*◌, ◌/◌, ◌%◌, ◌^◌, ◌<◌, ◌≡◌, refl, sym, ◌∙◌, subst, Bool, true, false, Option, none,
  some, ◌||◌, not, ltb, ◌==◌, if◌then◌else◌, length, arith, Bool-cases, inl, inr,
}
use rust_gps_ntp.Common.Words.{u8}
use rust_gps_ntp.Ntp.Bytes.{Buffer, byte_at, slice, from_be_bytes}
use rust_gps_ntp.Ntp.Float.{Floats}
use rust_gps_ntp.Ntp.Mode6.{
  ntp_control_header_len, mode6_answer, mode6_status, system_vars, peer_vars, build_mode6_response,
  mode6_frame,
}
use rust_gps_ntp.Ntp.Mode6.Frame.{mode6_frame-flags}
use rust_gps_ntp.Ntp.Packet.{
  DisciplineParams, mode_client, mode_symmetric_active, mode_symmetric_passive, mode_server,
  ntp_packet_len, mode_control, first_byte, reply_version, build_kod_response, build_response,
  stamp_transmit,
}
use rust_gps_ntp.Ntp.Packet.Decode.{first_byte-sum, reply_version_bounds}
use rust_gps_ntp.Ntp.Params.{discipline_params, servo_stats}
use rust_gps_ntp.Ntp.Poll.{
  Peer, Readings, Outcome, control_reply, time_reply, reply_mode_of, refuse, request_mode,
  request_version, drop_packet, acl_allows, try_rate_limit, finish, serve_control, serve_time,
  handle,
}
use rust_gps_ntp.Ntp.Server.{NtpServer, current_ntp_timestamp}

-- A datagram that a server may answer: a control query, or a request of a client or of a symmetric
-- active peer.
unfoldable pub is_request : Buffer → Bool
is_request p =
    if request_mode p == mode_control
    then byte_at 1 p / 2 ^ 7 % 2 == 0
    else request_mode p == mode_client || request_mode p == mode_symmetric_active

-- The lowest three bits of a first byte.
first_byte-mode : (l v m : ℕ) → v < 8 → m < 8 → first_byte l v m % 8 ≡ m
unfolding first_byte
first_byte-mode l v m hv hm =
    let wraps : u8 (l * 2 ^ 6) ≡ u8 (l % 4 * 2 ^ 6) = omega arith in
    let sum = first_byte-sum (l % 4) v m (omega arith) hv hm in rw wraps (rw sum (omega arith))

-- A reply mode is that of no request.
reply-modes : (b : Bool) → (if b then mode_server else mode_symmetric_passive) < 8
reply-modes true = omega arith
reply-modes false = omega arith

not_request :
    (b : Bool) (p : Buffer)
    → request_mode p ≡ (if b then mode_server else mode_symmetric_passive)
    → is_request p ≡ false
unfolding is_request
not_request true p h = rw h refl
not_request false p h = rw h refl

-- Nothing, or a datagram that no server answers.
abbrev pub Quiet : Option Buffer → Type 0
Quiet none = Unit
Quiet (some resp) = is_request resp ≡ false

time-mode :
    {F64 : Type 0} (req : Buffer) (dp : DisciplineParams F64) (receive_ts transmit_ts mode : ℕ)
    → mode < 8
    → request_mode (stamp_transmit transmit_ts (build_response req dp receive_ts mode)) ≡ mode
unfolding stamp_transmit build_response
time-mode req dp receive_ts transmit_ts mode h =
    let version = byte_at 0 req / 2 ^ 3 % 8 in
    first_byte-mode dp.leap (reply_version version) mode
      (omega (arith, reply_version_bounds version)) h

kod-mode :
    (req : Buffer) (version mode : ℕ)
    → mode < 8
    → request_mode (build_kod_response req version mode) ≡ mode
unfolding build_kod_response
kod-mode req version mode h =
    first_byte-mode 3 (reply_version version) mode (omega (arith, reply_version_bounds version)) h

mode6_frame-Quiet :
    (req : Buffer) (version status : ℕ) (error : Option ℕ) (payload : Buffer)
    → is_request (mode6_frame req version status error payload) ≡ false
unfolding is_request
mode6_frame-Quiet req version status error payload =
    let (mode, bit) = mode6_frame-flags req version status error payload in rw (mode, bit) refl

kod-Quiet :
    (req : Buffer)
    → is_request (build_kod_response req (request_version req) (reply_mode_of req)) ≡ false
kod-Quiet req =
    let client = request_mode req == mode_client in
    not_request client (build_kod_response req (request_version req) (reply_mode_of req))
      (kod-mode req (request_version req) (reply_mode_of req) (reply-modes client))

-- What a conditional that is false says of its branches.
branch-true : (c x y : Bool) → (if c then x else y) ≡ false → c ≡ true → x ≡ false
branch-true true x y h e = h
branch-true false x y h e = cc

branch-false : (c x y : Bool) → (if c then x else y) ≡ false → c ≡ false → y ≡ false
branch-false true x y h e = cc
branch-false false x y h e = h

module _ {fl : Floats} where
  silent-if :
      (b : Bool) (x y : Outcome fl)
      → (b ≡ true → x.sent ≡ none)
      → (b ≡ false → y.sent ≡ none)
      → (if b then x else y).sent ≡ none
  silent-if true x y h k = h refl
  silent-if false x y h k = k refl

  Quiet-if :
      (b : Bool) (x y : Outcome fl) → Quiet x.sent → Quiet y.sent → Quiet (if b then x else y).sent
  Quiet-if true x y h k = h
  Quiet-if false x y h k = k

  finish-Quiet :
      (r : Readings) (send_ok : Bool) (resp : Buffer) (s : NtpServer fl)
      → is_request resp ≡ false
      → Quiet (finish r send_ok resp s).sent
  unfolding finish
  finish-Quiet r true resp s h = h
  finish-Quiet r false resp s h = h

  control_reply-Quiet :
      (gps_fix : Bool) (r : Readings) (req : Buffer) (s : NtpServer fl)
      → is_request (control_reply gps_fix r req s) ≡ false
  unfolding control_reply build_mode6_response
  control_reply-Quiet gps_fix r req s =
      let dp = discipline_params s gps_fix r.params_us r.current_us r.current_wall in
      let stats = servo_stats s in
      let opcode = byte_at 1 req % 2 ^ 5 in
      let associd = from_be_bytes (slice 6 2 req) in
      let synced = dp.stratum == 1 in
      let answer = mode6_answer synced opcode associd (system_vars dp stats) (peer_vars dp stats) in
      mode6_frame-Quiet req (request_version req)
        (mode6_status synced dp.leap opcode associd answer.1) answer.1 answer.0

  time_reply-Quiet :
      (gps_fix : Bool) (r : Readings) (req : Buffer) (receive_ts : ℕ) (s : NtpServer fl)
      → is_request (time_reply gps_fix r req receive_ts (reply_mode_of req) s) ≡ false
  unfolding time_reply
  time_reply-Quiet gps_fix r req receive_ts s =
      let dp = discipline_params s gps_fix r.params_us r.current_us r.current_wall in
      let client = request_mode req == mode_client in
      not_request client (time_reply gps_fix r req receive_ts (reply_mode_of req) s) (
        time-mode req dp receive_ts (current_ntp_timestamp s r.transmit_us r.transmit_wall)
          (reply_mode_of req) (reply-modes client))

  serve_control-Quiet :
      (gps_fix : Bool) (r : Readings) (send_ok : Bool) (req : Buffer) (peer : Peer)
      (s : NtpServer fl)
      → Quiet (serve_control gps_fix r send_ok req peer s).sent
  unfolding serve_control
  serve_control-Quiet gps_fix r send_ok req peer s =
      let after = (try_rate_limit peer r.limited_us s).1 in
      let resp = control_reply gps_fix r req after in
      let sent = finish r send_ok resp after in
      let passes = (try_rate_limit peer r.limited_us s).0 in
      let unfit = ltb (length req) ntp_control_header_len || not (byte_at 1 req / 2 ^ 7 % 2 == 0) in
      Quiet-if unfit (drop_packet s) (if passes then sent else drop_packet after) tt (
        Quiet-if passes sent (drop_packet after)
          (finish-Quiet r send_ok resp after (control_reply-Quiet gps_fix r req after)) tt)

  serve_time-Quiet :
      (gps_fix : Bool) (r : Readings) (send_ok : Bool) (req : Buffer) (receive_ts : ℕ) (peer : Peer)
      (s : NtpServer fl)
      → Quiet (serve_time gps_fix r send_ok req receive_ts peer s).sent
  unfolding serve_time
  serve_time-Quiet gps_fix r send_ok req receive_ts peer s =
      let after = (try_rate_limit peer r.limited_us s).1 in
      let resp = time_reply gps_fix r req receive_ts (reply_mode_of req) after in
      let sent = finish r send_ok resp after in
      let kod = refuse (build_kod_response req (request_version req) (reply_mode_of req)) after in
      let passes = (try_rate_limit peer r.limited_us s).0 in
      Quiet-if (ltb (length req) ntp_packet_len) (drop_packet s) (if passes then sent else kod) tt (
        Quiet-if passes sent kod
          (finish-Quiet r send_ok resp after (time_reply-Quiet gps_fix r req receive_ts after))
          (kod-Quiet req))

  pub handle-Quiet :
      (gps_fix : Bool) (r : Readings) (send_ok : Bool) (req : Buffer) (peer : Peer)
      (s : NtpServer fl)
      → Quiet (handle gps_fix r send_ok req peer s).sent
  unfolding handle
  handle-Quiet gps_fix r send_ok req peer s =
      let ts = current_ntp_timestamp s r.received_us r.received_wall in
      let mode = request_mode req in
      let blocked = drop_packet (record s { acl_blocked_total = s.acl_blocked_total + 1 }) in
      let timed = serve_time gps_fix r send_ok req ts peer s in
      let control = serve_control gps_fix r send_ok req peer s in
      let is_time = mode == mode_client || mode == mode_symmetric_active in
      let other = (if is_time then timed else drop_packet s) in
      let allowed = (if mode == mode_control then control else other) in
      Quiet-if (not (acl_allows s peer)) blocked allowed tt (
        Quiet-if (mode == mode_control) control other
          (serve_control-Quiet gps_fix r send_ok req peer s)
          (Quiet-if is_time timed (drop_packet s) (serve_time-Quiet gps_fix r send_ok req ts peer s)
            tt))

  serve_control-silent :
      (gps_fix : Bool) (r : Readings) (send_ok : Bool) (req : Buffer) (peer : Peer)
      (s : NtpServer fl)
      → (byte_at 1 req / 2 ^ 7 % 2 == 0) ≡ false
      → (serve_control gps_fix r send_ok req peer s).sent ≡ none
  unfolding serve_control
  serve_control-silent gps_fix r send_ok req peer s h =
      let after = (try_rate_limit peer r.limited_us s).1 in
      let sent = finish r send_ok (control_reply gps_fix r req after) after in
      let passes = (try_rate_limit peer r.limited_us s).0 in
      let short = ltb (length req) ntp_control_header_len in
      let query = byte_at 1 req / 2 ^ 7 % 2 == 0 in
      silent-if (short || not query) (drop_packet s) (if passes then sent else drop_packet after)
        (λ e. refl) (λ e. absurd (unfit short query h e))
    where
      unfit : (a b : Bool) → b ≡ false → (a || not b) ≡ false → ⊥
      unfit true b k e = cc
      unfit false true k e = cc
      unfit false false k e = cc

  handle-silent :
      (gps_fix : Bool) (r : Readings) (send_ok : Bool) (req : Buffer) (peer : Peer)
      (s : NtpServer fl)
      → is_request req ≡ false
      → (handle gps_fix r send_ok req peer s).sent ≡ none
  unfolding handle is_request
  handle-silent gps_fix r send_ok req peer s h =
      let ts = current_ntp_timestamp s r.received_us r.received_wall in
      let mode = request_mode req in
      let blocked = drop_packet (record s { acl_blocked_total = s.acl_blocked_total + 1 }) in
      let timed = serve_time gps_fix r send_ok req ts peer s in
      let control = serve_control gps_fix r send_ok req peer s in
      let is_time = mode == mode_client || mode == mode_symmetric_active in
      let other = (if is_time then timed else drop_packet s) in
      let allowed = (if mode == mode_control then control else other) in
      let query = byte_at 1 req / 2 ^ 7 % 2 == 0 in
      silent-if (not (acl_allows s peer)) blocked allowed (λ _. refl)
        (λ _.
          silent-if (mode == mode_control) control other
            (λ e.
              serve_control-silent gps_fix r send_ok req peer s
                (branch-true (mode == mode_control) query is_time h e))
            (λ e.
              silent-if is_time timed (drop_packet s)
                (λ k. clash is_time k (branch-false (mode == mode_control) query is_time h e))
                (λ _. refl)))
    where
      clash : {A : Type 0} (b : Bool) → b ≡ true → b ≡ false → A
      clash true e k = cc
      clash false e k = cc

  -- Only requests are answered: control queries without the response bit and requests in the client
  -- or the symmetric active mode.
  pub handle-is_request :
      (gps_fix : Bool) (r : Readings) (send_ok : Bool) (req : Buffer) (peer : Peer)
      (s : NtpServer fl) (resp : Buffer)
      → (handle gps_fix r send_ok req peer s).sent ≡ some resp
      → is_request req ≡ true
  handle-is_request gps_fix r send_ok req peer s resp h = elim (Bool-cases (is_request req)) [
    | inl e ↦ e
    | inr e ↦ absurd (some_none (sym h ∙ handle-silent gps_fix r send_ok req peer s e))
  ]
    where
      some_none : some resp ≡ none → ⊥
      some_none e = cc

  -- No answer is answered: what one server sends in reply, another server, or the same one in any
  -- later state, drops, so that a forged packet cannot bounce between two servers.
  pub handle-no_ping_pong :
      (fix fix' : Bool) (r r' : Readings) (ok ok' : Bool) (req resp : Buffer) (peer peer' : Peer)
      (s s' : NtpServer fl)
      → (handle fix r ok req peer s).sent ≡ some resp
      → (handle fix' r' ok' resp peer' s').sent ≡ none
  handle-no_ping_pong fix fix' r r' ok ok' req resp peer peer' s s' h =
      handle-silent fix' r' ok' resp peer' s' (subst Quiet h (handle-Quiet fix r ok req peer s))
