-- ===== src/Ntp/Life/Clock.antt =====
-- What holds of the server after any sequence of calls: src/ntp/mod.rs.
use rust_gps_ntp.Common.{
  ℕ, ◌+◌, ◌/◌, ◌%◌, ◌^◌, ◌≤◌, ◌≡◌, refl, sym, ◌∙◌, subst, Bool, true, false, Option, some, List, [],
  ◌∷◌, ◌||◌, not, arith, Bool-cases, inl, inr, if◌then◌else◌, ltb, ◌==◌, length,
}
use rust_gps_ntp.Common.Int.{ℤ}
use rust_gps_ntp.Ntp.Bytes.{Buffer, byte_at}
use rust_gps_ntp.Ntp.Float.{Floats}
use rust_gps_ntp.Ntp.Life.{
  Event, acl_set, leap_set, seeded, gps_updated, pulsed, received, step, run_from, run,
}
use rust_gps_ntp.Ntp.Packet.{
  build_kod_response, mode_control, mode_client, mode_symmetric_active, ntp_packet_len,
}
use rust_gps_ntp.Ntp.Mode6.{ntp_control_header_len}
use rust_gps_ntp.Ntp.Poll.{
  Peer, v4, v6, Readings, Outcome, drop_packet, refuse, acl_allows, try_rate_limit, finish,
  control_reply, time_reply, reply_mode_of, request_mode, request_version, serve_control,
  serve_time, handle,
}
use rust_gps_ntp.Ntp.Pulse.Lock.{IsServer, Synced, observe_pps_pulse-IsServer}
use rust_gps_ntp.Ntp.Server.{
  ClockAnchor, NtpServer, is_some, from_socket, current_ntp_timestamp, record_proc_delay, set_acl,
  set_leap_indicator, seed_utc_seconds, update_gps_utc_seconds,
}
use rust_gps_ntp.Protection.Limiter.{check}

-- The fields that make up the clock.
pub record Clock (fl : Floats) : Type 0 where
  pub anchor : Option ClockAnchor
  pub is_locked : Bool
  pub freq : fl.F64
  pub last_pulse : Option ℤ
  pub reference : ℕ
  pub leap : ℕ
  pub step_awaited : Option ℤ

module _ {fl : Floats} where
  abbrev pub clock_of : NtpServer fl → Clock fl
  clock_of s = record {
    anchor = s.clock_anchor;
    is_locked = s.pps_locked;
    freq = s.freq_ppm;
    last_pulse = s.last_pps_monotonic_us;
    reference = s.last_sync_ntp_ts;
    leap = s.pending_leap;
    step_awaited = s.pending_gps_step;
  }

  SameClock : NtpServer fl → Outcome fl → Type 0
  SameClock s x = clock_of x.next ≡ clock_of s

  same-if :
      (s : NtpServer fl) (b : Bool) (x y : Outcome fl)
      → SameClock s x
      → SameClock s y
      → SameClock s (if b then x else y)
  same-if s true x y h k = h
  same-if s false x y h k = k

  try_rate_limit-clock :
      (peer : Peer) (now_us : ℤ) (s : NtpServer fl)
      → clock_of (try_rate_limit peer now_us s).1 ≡ clock_of s
  unfolding try_rate_limit
  try_rate_limit-clock v6 now_us s = refl
  try_rate_limit-clock (v4 ip) now_us s = elim (Bool-cases (check ip now_us s.rate_limiter).0) [
    | inl e ↦ rw e refl
    | inr e ↦ rw e refl
  ]

  finish-clock :
      (r : Readings) (send_ok : Bool) (resp : Buffer) (s : NtpServer fl)
      → clock_of (finish r send_ok resp s).next ≡ clock_of s
  unfolding finish record_proc_delay
  finish-clock r false resp s = refl
  finish-clock r true resp s = elim (Bool-cases s.proc_delay_has_sample) [
    | inl e ↦ rw e refl
    | inr e ↦ rw e refl
  ]

  -- Serving a datagram never touches the clock: neither its anchor, its frequency and its lock nor
  -- the leap indicator.
  pub handle-clock :
      (gps_fix : Bool) (r : Readings) (send_ok : Bool) (req : Buffer) (peer : Peer)
      (s : NtpServer fl)
      → clock_of (handle gps_fix r send_ok req peer s).next ≡ clock_of s
  unfolding handle serve_control serve_time SameClock
  handle-clock gps_fix r send_ok req peer s =
      let ts = current_ntp_timestamp s r.received_us r.received_wall in
      let limited = try_rate_limit peer r.limited_us s in
      let after = limited.1 in
      let spent = try_rate_limit-clock peer r.limited_us s in
      let mode = request_mode req in
      let blocked = drop_packet (record s { acl_blocked_total = s.acl_blocked_total + 1 }) in
      let answer = control_reply gps_fix r req after in
      let answered = finish r send_ok answer after in
      let reply = time_reply gps_fix r req ts (reply_mode_of req) after in
      let replied = finish r send_ok reply after in
      let kod = refuse (build_kod_response req (request_version req) (reply_mode_of req)) after in
      let control = (if limited.0 then answered else drop_packet after) in
      let timed = (if limited.0 then replied else kod) in
      let is_query = byte_at 1 req / 2 ^ 7 % 2 == 0 in
      let unfit = ltb (length req) ntp_control_header_len || not is_query in
      let short = ltb (length req) ntp_packet_len in
      let is_time = mode == mode_client || mode == mode_symmetric_active in
      let controlled = (if unfit then drop_packet s else control) in
      let served_time = (if short then drop_packet s else timed) in
      let other = (if is_time then served_time else drop_packet s) in
      same-if s (not (acl_allows s peer)) blocked
        (if mode == mode_control then controlled else other) refl
        (same-if s (mode == mode_control) controlled other
          (same-if s unfit (drop_packet s) control refl (
            same-if s limited.0 answered (drop_packet after)
              (finish-clock r send_ok answer after ∙ spent) spent))
          (same-if s is_time served_time (drop_packet s)
            (same-if s short (drop_packet s) timed refl
              (same-if s limited.0 replied kod (finish-clock r send_ok reply after ∙ spent) spent))
            refl))

  handle-IsServer :
      (gps_fix : Bool) (r : Readings) (send_ok : Bool) (req : Buffer) (peer : Peer)
      (s : NtpServer fl)
      → IsServer s
      → IsServer (handle gps_fix r send_ok req peer s).next
  handle-IsServer gps_fix r send_ok req peer s h =
      subst
        (λ c.
          (is_some c.last_pulse ≡ c.is_locked)
          × (c.leap ≤ 2)
          × Synced c.is_locked c.anchor c.reference)
        (sym (handle-clock gps_fix r send_ok req peer s)) h

  -- A clock that is not locked may be given any anchor.
  anchor_lem :
      (s : NtpServer fl) (a : ClockAnchor)
      → false ≡ s.pps_locked
      → IsServer s
      → IsServer (record s { clock_anchor = some a })
  anchor_lem s a e h = (
    h.0,
    h.1,
    subst (λ l. Synced l s.clock_anchor s.last_sync_ntp_ts → Synced l (some a) s.last_sync_ntp_ts) e
        (λ k. k) h.2,
  )

  gps_lem :
      (s : NtpServer fl) (a : ClockAnchor) (l : Bool)
      → l ≡ s.pps_locked
      → IsServer s
      → IsServer (if l then s else record s { clock_anchor = some a })
  gps_lem s a true e h = h
  gps_lem s a false e h = anchor_lem s a e h

  seed_lem :
      (s : NtpServer fl) (a : ClockAnchor) (l b : Bool)
      → l ≡ s.pps_locked
      → IsServer s
      → IsServer (if l || b then s else record s { clock_anchor = some a })
  seed_lem s a true b e h = h
  seed_lem s a false true e h = h
  seed_lem s a false false e h = anchor_lem s a e h

  seed-IsServer :
      (utc now_us : ℤ) (s : NtpServer fl) → IsServer s → IsServer (seed_utc_seconds utc now_us s)
  unfolding seed_utc_seconds
  seed-IsServer utc now_us s h =
      seed_lem s (record { unix_seconds = utc; monotonic_us = now_us }) s.pps_locked
        (is_some s.clock_anchor) refl h

  gps-IsServer :
      (utc now_us : ℤ) (s : NtpServer fl)
      → IsServer s
      → IsServer (update_gps_utc_seconds utc now_us s)
  unfolding update_gps_utc_seconds
  gps-IsServer utc now_us s h =
      let noted = record s {
        last_gps_utc_seconds = some utc;
        last_gps_utc_update_us = some now_us;
      } in
      gps_lem noted (record { unix_seconds = utc; monotonic_us = now_us }) s.pps_locked refl h

  step-IsServer :
      (fudge : ℤ) (e : Event) (s : NtpServer fl) → IsServer s → IsServer (step fudge e s)
  unfolding step set_acl set_leap_indicator
  step-IsServer fudge (acl_set acl) s h = h
  step-IsServer fudge (leap_set li) s h = (h.0, omega arith, h.2)
  step-IsServer fudge (seeded utc now_us) s h = seed-IsServer utc now_us s h
  step-IsServer fudge (gps_updated utc now_us) s h = gps-IsServer utc now_us s h
  step-IsServer fudge (pulsed interval edge_us) s h =
      observe_pps_pulse-IsServer fudge interval edge_us s h
  step-IsServer fudge (received gps_fix r send_ok req peer) s h =
      handle-IsServer gps_fix r send_ok req peer s h

  run_from-IsServer :
      (fudge : ℤ) (es : List Event) (s : NtpServer fl) → IsServer s → IsServer (run_from fudge es s)
  unfolding run_from
  run_from-IsServer fudge [] s h = h
  run_from-IsServer fudge (e ∷ es) s h =
      run_from-IsServer fudge es (step fudge e s) (step-IsServer fudge e s h)

-- After any sequence of calls the server is well formed: it is locked exactly when a pulse has
-- disciplined it, the leap indicator that it stores, to announce once it is synchronised, is at most
-- 2, and its reference timestamp is that of the anchor's second, or zero before the first lock.
pub run-IsServer : (fl : Floats) (fudge : ℤ) (es : List Event) → IsServer (run fl fudge es)
unfolding run from_socket
run-IsServer fl fudge es = run_from-IsServer fudge es (from_socket fl) (refl, omega arith, refl)
