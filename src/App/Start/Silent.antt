-- ===== src/App/Start/Silent.antt =====
-- What the server says of itself before the first pulse, src/app.rs.
use rust_gps_ntp.Common.{
  ℕ, suc, ◌≤◌, ◌≡◌, ◌==◌, refl, ap, ◌∙◌, sym, subst, Bool, true, false, Option, none, some, List,
  [], ◌∷◌, ◌&&◌, not, All, if◌then◌else◌, Bool-cases, inl, inr, arith,
}
use rust_gps_ntp.Common.Int.{ℤ, pos, ltb_ℤ}
use rust_gps_ntp.Ntp.Float.{Floats}
use rust_gps_ntp.Ntp.Server.{
  NtpServer, is_some, from_socket, set_acl, apply_boot_acl, seed_utc_seconds,
  update_gps_utc_seconds,
}
use rust_gps_ntp.Ntp.Life.Clock.{Clock}
use rust_gps_ntp.Ntp.Packet.{stratum_unsync}
use rust_gps_ntp.Ntp.Params.{
  disp_us, holdover_unsync_us, NtpSnapshot, discipline_params, fully_synced, holdover_ok,
}
use rust_gps_ntp.Ntp.Params.Holdover.{stratum_of}
use rust_gps_ntp.Protection.Cidr.{Text}
use rust_gps_ntp.Gps.Sentences.{Platform}
use rust_gps_ntp.Gps.Uart
use rust_gps_ntp.Gps.Uart.{Call, on_snapshot, on_fix}
use rust_gps_ntp.Pps.{PpsPollState}
use rust_gps_ntp.Pins.{from_board_pins}
use rust_gps_ntp.Pins.Startup.{started}
use rust_gps_ntp.Timezone.Cache.{TimezoneBoot}
use rust_gps_ntp.Wifi.{WifiCredentials}
use rust_gps_ntp.Board.{BootAnswers, BoardBoot, boot, init_ntp_server}
use rust_gps_ntp.Board.Starts.{started-pps}
use rust_gps_ntp.Pps.Device.{PpsDevice, new_device}
use rust_gps_ntp.Ui.Feed.{is_due}
use rust_gps_ntp.App.{App, fallback_interval_us, maybe_apply_rtc_fallback, seed_from_rtc}
use rust_gps_ntp.App.Zones.{
  configured_timezone, dispatch, dispatch_all, give_utc, maybe_schedule_timezone_lookup,
  poll_timezone,
}
use rust_gps_ntp.App.Pass.{
  PassReadings, poll_gps, poll_ntp, poll_pps, refresh_ntp, self_checks, service_pass,
}
use rust_gps_ntp.App.Holdover.{
  Keeps, schedule-Keeps, poll_timezone-Keeps, poll_ntp-Keeps, quiet_pps, refresh_ntp-Keeps,
  self_checks-Keeps,
}
use rust_gps_ntp.Timezone.{TimezoneWorker, thread_takes, thread_sends}
use rust_gps_ntp.App.Start.{
  Tasks, Turn, looped, lookup_taken, lookup_sent, sampled, with_worker, start_app, start_tasks,
  take_turn, run,
}

module _ {fl : Floats} where
  -- No pulse has been taken.
  abbrev NoPulse : NtpServer fl → Type 0
  NoPulse s = (s.pps_locked ≡ false) × (s.last_pps_monotonic_us ≡ none)

  seed-NoPulse :
      (secs now : ℤ) (s : NtpServer fl) → NoPulse s → NoPulse (seed_utc_seconds secs now s)
  unfolding seed_utc_seconds
  seed-NoPulse secs now s h = ground (arith, h.0, h.1)

  update-NoPulse :
      (utc now : ℤ) (s : NtpServer fl) → NoPulse s → NoPulse (update_gps_utc_seconds utc now s)
  unfolding update_gps_utc_seconds
  update-NoPulse utc now s h = ground (arith, h.0, h.1)

  no_sync :
      (s : NtpServer fl) (gps_fix : Bool) (now : ℤ) → NoPulse s → fully_synced s gps_fix now ≡ false
  unfolding fully_synced
  no_sync s true now h = rw h.1 refl
  no_sync s false now h = refl

  no_holdover :
      (s : NtpServer fl) (gps_fix : Bool) (now : ℤ) → NoPulse s → holdover_ok s gps_fix now ≡ false
  unfolding holdover_ok
  no_holdover s gps_fix now h =
      ap (λ b. b && is_some s.clock_anchor && ltb_ℤ (disp_us s gps_fix now) holdover_unsync_us) h.0

  -- Without a pulse the server is at stratum 16 and announces an alarm, with or without a fix.
  IsUnsync-NoPulse :
      (s : NtpServer fl) (gps_fix : Bool) (now current : ℤ) (wall : ℕ)
      → NoPulse s
      → let dp = discipline_params s gps_fix now current wall in
        (dp.stratum ≡ stratum_unsync) × (dp.leap ≡ 3)
  unfolding discipline_params
  IsUnsync-NoPulse s gps_fix now current wall h =
      let e =
        ap (λ b. stratum_of b (holdover_ok s gps_fix now)) (no_sync s gps_fix now h)
        ∙ ap (stratum_of false) (no_holdover s gps_fix now h) in
      (e, ap (λ n. if n == 1 then s.pending_leap else 3) e)

start-NoPulse :
    (fl : Floats) (acl_cidr : Text) (utc : Option ℤ) (now : ℤ)
    → NoPulse (init_ntp_server fl acl_cidr utc now)
unfolding init_ntp_server from_socket apply_boot_acl set_acl
start-NoPulse fl acl_cidr none now = (refl, refl)
start-NoPulse fl acl_cidr (some secs) now =
    seed-NoPulse secs now (apply_boot_acl acl_cidr (from_socket fl)) (refl, refl)

-- No pass of the main loop sees a pulse.
abbrev pub IsQuiet : {pf : Platform} {B : Type 0} → Turn pf B → Type 0
IsQuiet (looped r) = r.pulse_count ≡ 0
IsQuiet lookup_taken = Unit
IsQuiet (lookup_sent fetch) = Unit
IsQuiet (sampled frame_pending now r sd) = Unit

module _ {pf : Platform} {fl : Floats} {B : Type 0} where
  abbrev IsSilent : App pf fl B → Type 0
  IsSilent a = NoPulse a.server × (a.pps_state.last_count ≡ 0)

  Keeps-IsSilent : (a b : App pf fl B) → Keeps a b → IsSilent a → IsSilent b
  Keeps-IsSilent a b k h = (
    (
      ap (λ (c : Clock fl). c.is_locked) k.0 ∙ h.0.0,
      ap (λ (c : Clock fl). c.last_pulse) k.0 ∙ h.0.1,
    ),
    ap (λ (p : PpsPollState). p.last_count) k.1 ∙ h.1,
  )

  give_utc-IsSilent :
      (now : ℕ) (utc : Option ℤ) (a : App pf fl B) → IsSilent a → IsSilent (give_utc now utc a)
  unfolding update_gps_utc_seconds
  give_utc-IsSilent now none a h = h
  give_utc-IsSilent now (some utc) a h = (update-NoPulse utc (pos now) a.server h.0, h.1)

  dispatch-IsSilent :
      (utc_us lookup_us : ℕ) (c : Call pf) (a : App pf fl B)
      → IsSilent a
      → IsSilent (dispatch utc_us lookup_us c a)
  unfolding dispatch
  dispatch-IsSilent utc_us lookup_us (on_snapshot g) a h = h
  dispatch-IsSilent utc_us lookup_us (on_fix g) a h =
      let b = give_utc utc_us g.utc_unix_seconds a in
      Keeps-IsSilent b (maybe_schedule_timezone_lookup lookup_us g b.tz_worker b)
        (schedule-Keeps lookup_us g b.tz_worker b) (give_utc-IsSilent utc_us g.utc_unix_seconds a h)

  dispatch_all-IsSilent :
      (utc_us lookup_us : ℕ → ℕ) (i : ℕ) (calls : List (Call pf)) (a : App pf fl B)
      → IsSilent a
      → IsSilent (dispatch_all utc_us lookup_us i calls a)
  unfolding dispatch_all
  dispatch_all-IsSilent utc_us lookup_us i [] a h = h
  dispatch_all-IsSilent utc_us lookup_us i (c ∷ calls) a h =
      dispatch_all-IsSilent utc_us lookup_us (suc i) calls (dispatch (utc_us i) (lookup_us i) c a)
        (dispatch-IsSilent (utc_us i) (lookup_us i) c a h)

  poll_gps-IsSilent : (r : PassReadings pf) (a : App pf fl B) → IsSilent a → IsSilent (poll_gps r a)
  unfolding poll_gps
  poll_gps-IsSilent r a h =
      let u =
        Uart.poll pf (configured_timezone r.default_tz a) r.utf8 r.uart_bytes
          (record a.uart { calls = [] }) in
      dispatch_all-IsSilent r.utc_us r.lookup_us 0 u.calls (record a { uart = u }) h

  seed_from_rtc-IsSilent :
      (now server_us : ℕ) (utc : Option ℤ) (a : App pf fl B)
      → IsSilent a
      → IsSilent (seed_from_rtc now server_us utc a)
  seed_from_rtc-IsSilent now server_us none a h = h
  seed_from_rtc-IsSilent now server_us (some secs) a h =
      elim (Bool-cases (is_due now a.last_rtc_fallback_us fallback_interval_us)) [
        | inl e ↦ rw e (seed-NoPulse secs (pos server_us) a.server h.0, h.1)
        | inr e ↦ rw e h
      ]

  IsSilent-if :
      (c : Bool) (a b : App pf fl B) → IsSilent a → IsSilent b → IsSilent (if c then a else b)
  IsSilent-if true a b h k = h
  IsSilent-if false a b h k = k

  fallback-IsSilent :
      (now server_us : ℕ) (a : App pf fl B)
      → IsSilent a
      → IsSilent (maybe_apply_rtc_fallback now server_us a)
  unfolding maybe_apply_rtc_fallback
  fallback-IsSilent now server_us a h =
      let b = seed_from_rtc now server_us a.ui_feed.rtc.utc_unix_seconds a in
      IsSilent-if a.uart.snapshot.fix a (if not a.ui_feed.rtc.detected then a else b) h (
        IsSilent-if (not a.ui_feed.rtc.detected) a b h
          (seed_from_rtc-IsSilent now server_us a.ui_feed.rtc.utc_unix_seconds a h))

  service_pass-IsSilent :
      (rtc_present : Bool) (r : PassReadings pf) (a : App pf fl B)
      → IsSilent a
      → r.pulse_count ≡ 0
      → IsSilent (service_pass rtc_present r a)
  unfolding service_pass
  service_pass-IsSilent rtc_present r a h quiet =
      let b = poll_gps r a in
      let c = poll_timezone r.default_tz b.tz_worker b in
      let d = poll_ntp r c in
      let e = maybe_apply_rtc_fallback r.fallback_us r.seed_us d in
      let f = refresh_ntp r (poll_pps r e) in
      let silent_d : IsSilent d = Keeps-IsSilent c d (poll_ntp-Keeps r c) (
        Keeps-IsSilent b c (poll_timezone-Keeps r.default_tz b.tz_worker b)
          (poll_gps-IsSilent r a h)) in
      let silent_e : IsSilent e = fallback-IsSilent r.fallback_us r.seed_us d silent_d in
      let still : r.pulse_count ≤ e.pps_state.last_count = omega (arith, quiet) in
      Keeps-IsSilent f (self_checks rtc_present f) (self_checks-Keeps rtc_present f) (
        Keeps-IsSilent (poll_pps r e) f (refresh_ntp-Keeps r (poll_pps r e))
          (subst IsSilent (sym (quiet_pps r e still)) silent_e))

  with_worker-IsSilent :
      (f : TimezoneWorker (pf.F32 × pf.F32) → TimezoneWorker (pf.F32 × pf.F32)) (a : App pf fl B)
      (w : Option (TimezoneWorker (pf.F32 × pf.F32)))
      → IsSilent a
      → IsSilent (with_worker f a w)
  with_worker-IsSilent f a none h = h
  with_worker-IsSilent f a (some w) h = h

  take_turn-IsSilent :
      (rtc_present : Bool) (x : Turn pf B) (t : Tasks pf fl B)
      → IsSilent t.app
      → IsQuiet x
      → IsSilent (take_turn rtc_present x t).app
  unfolding take_turn
  take_turn-IsSilent rtc_present (looped r) t h quiet =
      service_pass-IsSilent rtc_present r t.app h quiet
  take_turn-IsSilent rtc_present lookup_taken t h quiet =
      with_worker-IsSilent thread_takes t.app t.app.tz_worker h
  take_turn-IsSilent rtc_present (lookup_sent fetch) t h quiet =
      with_worker-IsSilent (thread_sends fetch) t.app t.app.tz_worker h
  take_turn-IsSilent rtc_present (sampled frame_pending now r sd) t h quiet = h

  run-IsSilent :
      (rtc_present : Bool) (xs : List (Turn pf B)) (t : Tasks pf fl B)
      → IsSilent t.app
      → All IsQuiet xs
      → IsSilent (run rtc_present xs t).app
  unfolding run
  run-IsSilent rtc_present [] t h quiet = h
  run-IsSilent rtc_present (x ∷ xs) t h quiet =
      run-IsSilent rtc_present xs (take_turn rtc_present x t)
        (take_turn-IsSilent rtc_present x t h quiet.0) quiet.1

module _ {pf : Platform} {fl : Floats} {B : Type 0} (no_ntp : NtpSnapshot fl) (no_battery : B) where
  -- However the board has started, with whatever time of the clock chip and allowlist, and however
  -- the passes of the main loop, the thread of the zone lookups and the panel task's samples of the
  -- chips take their whole turns: as long as no pass sees a pulse, the server is at stratum 16 and
  -- announces an alarm, whatever the receiver, the socket, the lookups and the clock chip bring.
  pub run-unsync :
      (creds : WifiCredentials) (r : BootAnswers) (load : Option ℤ → TimezoneBoot pf)
      (board : BoardBoot pf (NtpSnapshot fl) B) (acl_cidr : Text) (seed_us : ℤ) (spawned : Bool)
      (xs : List (Turn pf B)) (gps_fix : Bool) (now current : ℤ) (wall : ℕ)
      → (boot pf no_ntp no_battery creds r load from_board_pins).0 ≡ started board
      → All IsQuiet xs
      → let t = run board.rtc_present xs (start_tasks (start_app acl_cidr seed_us spawned board)) in
        let dp = discipline_params t.app.server gps_fix now current wall in
        (dp.stratum ≡ stratum_unsync) × (dp.leap ≡ 3)
  unfolding start_app start_tasks new_device
  run-unsync creds r load board acl_cidr seed_us spawned xs gps_fix now current wall h quiet =
      let t = start_tasks (start_app acl_cidr seed_us spawned board) in
      let silent =
        run-IsSilent board.rtc_present xs t
          (
            start-NoPulse fl acl_cidr board.boot_rtc_unix seed_us,
            ap (λ (d : PpsDevice). d.poll_state.last_count)
                (started-pps pf no_ntp no_battery creds r load board h),
          )
          quiet in
      IsUnsync-NoPulse (run board.rtc_present xs t).app.server gps_fix now current wall silent.0
