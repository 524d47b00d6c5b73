-- ===== src/App/Holdover.antt =====
-- The clock between two pulses, src/app.rs.
use rust_gps_ntp.Common.{
  suc, ℕ, ◌≤◌, ◌≡◌, refl, ap, ◌∙◌, sym, subst, ◌-◌, Bool, true, false, Option, none, some, List, [],
  ◌∷◌, ◌||◌, ◌&&◌, not, leb, ltb, if◌then◌else◌, Bool-cases, inl, inr, arith,
}
use rust_gps_ntp.Common.Int.{ℤ, pos}
use rust_gps_ntp.Ntp.Bytes.{Buffer}
use rust_gps_ntp.Ntp.Float.{Floats}
use rust_gps_ntp.Ntp.Server.{NtpServer, seed_utc_seconds, update_gps_utc_seconds}
use rust_gps_ntp.Ntp.Life.Clock.{Clock, clock_of}
use rust_gps_ntp.Ntp.Life.Batch.{poll-replies}
use rust_gps_ntp.Ntp.Poll
use rust_gps_ntp.Pps
use rust_gps_ntp.Pps.{PpsEvent, PpsPollState}
use rust_gps_ntp.Gps.Sentences.{Platform, GpsSnapshot}
use rust_gps_ntp.Gps.Uart.{Call, on_snapshot, on_fix, GpsUart}
use rust_gps_ntp.Timezone.{
  TimezoneWorker, Lookup, found, nameless, failed, try_request, poll_worker, lookup_interval_us,
}
use rust_gps_ntp.Ui.Feed.{is_due}
use rust_gps_ntp.Protection.Cidr.{Text}
use rust_gps_ntp.Gps.Uart
use rust_gps_ntp.App.{
  or_else, publish_interval_us, fallback_interval_us, App, Coords, maybe_apply_rtc_fallback,
  seed_from_rtc,
}
use rust_gps_ntp.App.Zones.{
  configured_timezone, dispatch, dispatch_all, poll_timezone, after_lookup,
  apply_timezone_lookup_result, apply_zone, show_offset, maybe_schedule_timezone_lookup, asked,
  give_utc,
}
use rust_gps_ntp.App.Pass.{
  PassReadings, poll_gps, poll_ntp, after_poll, poll_pps, refresh_ntp, self_checks, on_first_fix,
  seed_chip, service_pass,
}

module _ {pf : Platform} {fl : Floats} {B : Type 0} where
  abbrev Clk : App pf fl B → Clock fl
  Clk a = clock_of a.server

  -- A server that is locked stays on its clock.
  abbrev pub Keeps : App pf fl B → App pf fl B → Type 0
  Keeps a b = (Clk b ≡ Clk a) × (b.pps_state ≡ a.pps_state)

  Keeps-if : (c : Bool) (a b : App pf fl B) → Keeps a b → Keeps a (if c then b else a)
  Keeps-if true a b h = h
  Keeps-if false a b h = (refl, refl)

  rests-if : (c : Bool) (a b : App pf fl B) → Keeps a b → Keeps a (if c then a else b)
  rests-if true a b h = (refl, refl)
  rests-if false a b h = h

  asked-Keeps :
      (now : ℕ) (x : Bool × TimezoneWorker (Coords pf fl B)) (a : App pf fl B)
      → Keeps a (asked now x a)
  asked-Keeps now (true, w) a = (refl, refl)
  asked-Keeps now (false, w) a = (refl, refl)

  pub schedule-Keeps :
      (now : ℕ) (g : GpsSnapshot pf) (w : Option (TimezoneWorker (Coords pf fl B)))
      (a : App pf fl B)
      → Keeps a (maybe_schedule_timezone_lookup now g w a)
  unfolding maybe_schedule_timezone_lookup
  schedule-Keeps now g none a = (refl, refl)
  schedule-Keeps now g (some w) a =
      Keeps-if
        (is_due now a.last_tz_lookup_us (lookup_interval_us a.tz_initialized) && not w.pending) a
        (asked now (try_request (g.lat, g.lon) w) a)
        (asked-Keeps now (try_request (g.lat, g.lon) w) a)

  give_utc-Keeps :
      (now : ℕ) (utc : Option ℤ) (a : App pf fl B)
      → a.server.pps_locked ≡ true
      → Keeps a (give_utc now utc a)
  unfolding update_gps_utc_seconds
  give_utc-Keeps now none a h = (refl, refl)
  give_utc-Keeps now (some utc) a h = (rw h refl, refl)

  Keeps-locked :
      (a b : App pf fl B) → Keeps a b → a.server.pps_locked ≡ true → b.server.pps_locked ≡ true
  Keeps-locked a b k h = ap (λ (c : Clock fl). c.is_locked) k.0 ∙ h

  Keeps-trans : (a b c : App pf fl B) → Keeps a b → Keeps b c → Keeps a c
  Keeps-trans a b c h k = (k.0 ∙ h.0, k.1 ∙ h.1)

  dispatch-Keeps :
      (utc_us lookup_us : ℕ) (c : Call pf) (a : App pf fl B)
      → a.server.pps_locked ≡ true
      → Keeps a (dispatch utc_us lookup_us c a)
  unfolding dispatch
  dispatch-Keeps utc_us lookup_us (on_snapshot g) a h = (refl, refl)
  dispatch-Keeps utc_us lookup_us (on_fix g) a h =
      let b = give_utc utc_us g.utc_unix_seconds a in
      Keeps-trans a b (maybe_schedule_timezone_lookup lookup_us g b.tz_worker b)
        (give_utc-Keeps utc_us g.utc_unix_seconds a h) (schedule-Keeps lookup_us g b.tz_worker b)

  dispatch_all-Keeps :
      (utc_us lookup_us : ℕ → ℕ) (i : ℕ) (calls : List (Call pf)) (a : App pf fl B)
      → a.server.pps_locked ≡ true
      → Keeps a (dispatch_all utc_us lookup_us i calls a)
  unfolding dispatch_all
  dispatch_all-Keeps utc_us lookup_us i [] a h = (refl, refl)
  dispatch_all-Keeps utc_us lookup_us i (c ∷ calls) a h =
      let b = dispatch (utc_us i) (lookup_us i) c a in
      let k = dispatch-Keeps (utc_us i) (lookup_us i) c a h in
      Keeps-trans a b (dispatch_all utc_us lookup_us (suc i) calls b) k
        (dispatch_all-Keeps utc_us lookup_us (suc i) calls b (Keeps-locked a b k h))

  poll_gps-Keeps :
      (r : PassReadings pf) (a : App pf fl B) → a.server.pps_locked ≡ true → Keeps a (poll_gps r a)
  unfolding poll_gps
  poll_gps-Keeps r a h =
      let u =
        Uart.poll pf (configured_timezone r.default_tz a) r.utf8 r.uart_bytes
          (record a.uart { calls = [] }) in
      dispatch_all-Keeps r.utc_us r.lookup_us 0 u.calls (record a { uart = u }) h

  apply_zone-Keeps :
      (name : Text) (tz : Option pf.Zone) (a : App pf fl B) → Keeps a (apply_zone name tz a)
  apply_zone-Keeps name none a = (refl, refl)
  apply_zone-Keeps name (some tz) a = (refl, refl)

  apply_lookup-Keeps : (l : Lookup) (a : App pf fl B) → Keeps a (apply_timezone_lookup_result l a)
  unfolding apply_timezone_lookup_result
  apply_lookup-Keeps (found name) a = apply_zone-Keeps name (pf.zone_of_name name) a
  apply_lookup-Keeps nameless a = (refl, refl)
  apply_lookup-Keeps failed a = (refl, refl)

  show_offset-Keeps :
      (tz : Option pf.Zone) (utc : Option ℤ) (a : App pf fl B) → Keeps a (show_offset tz utc a)
  show_offset-Keeps tz none a = (refl, refl)
  show_offset-Keeps tz (some utc) a = (refl, refl)

  after_lookup-Keeps :
      (tz : Option pf.Zone) (x : Option Lookup × TimezoneWorker (Coords pf fl B)) (a : App pf fl B)
      → Keeps a (after_lookup tz x a)
  after_lookup-Keeps tz (none, w) a = (refl, refl)
  after_lookup-Keeps tz (some l, w) a =
      let b = apply_timezone_lookup_result l (record a { tz_worker = some w }) in
      let utc = or_else b.uart.snapshot.utc_unix_seconds b.ui_feed.rtc.utc_unix_seconds in
      Keeps-trans a b (after_lookup tz (some l, w) a)
        (apply_lookup-Keeps l (record a { tz_worker = some w }))
        (Keeps-if b.tz_initialized b (show_offset tz utc b) (show_offset-Keeps tz utc b))

  pub poll_timezone-Keeps :
      (tz : Option pf.Zone) (w : Option (TimezoneWorker (Coords pf fl B))) (a : App pf fl B)
      → Keeps a (poll_timezone tz w a)
  unfolding poll_timezone
  poll_timezone-Keeps tz none a = (refl, refl)
  poll_timezone-Keeps tz (some w) a = after_lookup-Keeps tz (poll_worker w) a

  after_poll-Keeps :
      (r : PassReadings pf) (x : NtpServer fl × List Buffer × Bool) (a : App pf fl B)
      → clock_of x.0 ≡ clock_of a.server
      → Keeps a (after_poll r x a)
  after_poll-Keeps r (server, sent, false) a h = (h, refl)
  after_poll-Keeps r (server, sent, true) a h =
      elim (Bool-cases (ltb a.last_ntp_served server.served)) [
        | inl e ↦ rw e (h, refl)
        | inr e ↦ rw e (h, refl)
      ]

  pub poll_ntp-Keeps : (r : PassReadings pf) (a : App pf fl B) → Keeps a (poll_ntp r a)
  unfolding poll_ntp
  poll_ntp-Keeps r a =
      after_poll-Keeps r (Poll.poll a.uart.snapshot.fix r.received a.server) a
        (poll-replies a.uart.snapshot.fix r.received a.server).0

  seed_from_rtc-Keeps :
      (now server_us : ℕ) (utc : Option ℤ) (a : App pf fl B)
      → a.server.pps_locked ≡ true
      → Keeps a (seed_from_rtc now server_us utc a)
  unfolding seed_utc_seconds
  seed_from_rtc-Keeps now server_us none a h = (refl, refl)
  seed_from_rtc-Keeps now server_us (some secs) a h =
      let same : seed_utc_seconds secs (pos server_us) a.server ≡ a.server = rw h refl in
      elim (Bool-cases (is_due now a.last_rtc_fallback_us fallback_interval_us)) [
        | inl e ↦ rw e (ap clock_of same, refl)
        | inr e ↦ rw e (refl, refl)
      ]

  fallback-Keeps :
      (now server_us : ℕ) (a : App pf fl B)
      → a.server.pps_locked ≡ true
      → Keeps a (maybe_apply_rtc_fallback now server_us a)
  unfolding maybe_apply_rtc_fallback
  fallback-Keeps now server_us a h =
      let seeded = seed_from_rtc now server_us a.ui_feed.rtc.utc_unix_seconds a in
      let k = seed_from_rtc-Keeps now server_us a.ui_feed.rtc.utc_unix_seconds a h in
      rests-if a.uart.snapshot.fix a (if not a.ui_feed.rtc.detected then a else seeded)
        (rests-if (not a.ui_feed.rtc.detected) a seeded k)

  pub quiet_pps :
      (r : PassReadings pf) (a : App pf fl B)
      → r.pulse_count ≤ a.pps_state.last_count
      → poll_pps r a ≡ a
  unfolding poll_pps Pps.poll
  quiet_pps r a h =
      let seen : leb r.pulse_count a.pps_state.last_count ≡ true = ground arith in rw seen refl

  pub refresh_ntp-Keeps : (r : PassReadings pf) (a : App pf fl B) → Keeps a (refresh_ntp r a)
  unfolding refresh_ntp
  refresh_ntp-Keeps r a =
      elim (Bool-cases (leb publish_interval_us (r.refresh_us - a.last_ntp_publish_us))) [
        | inl e ↦ rw e (refl, refl)
        | inr e ↦ rw e (refl, refl)
      ]

  seed_chip-Keeps : (utc : Option ℤ) (a : App pf fl B) → Keeps a (seed_chip utc a)
  seed_chip-Keeps none a = (refl, refl)
  seed_chip-Keeps (some utc) a = (refl, refl)

  on_first_fix-Keeps : (present : Bool) (a : App pf fl B) → Keeps a (on_first_fix present a)
  on_first_fix-Keeps present a =
      Keeps-if (present && not a.rtc_seeded_from_gps) (record a { first_fix_logged = true })
        (seed_chip a.uart.snapshot.utc_unix_seconds (record a { first_fix_logged = true }))
        (seed_chip-Keeps a.uart.snapshot.utc_unix_seconds (record a { first_fix_logged = true }))

  pub self_checks-Keeps : (present : Bool) (a : App pf fl B) → Keeps a (self_checks present a)
  unfolding self_checks
  self_checks-Keeps present a =
      let b : App pf fl B = record a {
        first_nmea_logged = a.first_nmea_logged || ltb 0 a.uart.bytes_seen;
      } in
      Keeps-if (not b.first_fix_logged && b.uart.snapshot.fix) b (on_first_fix present b)
        (on_first_fix-Keeps present b)

  -- While the server is locked, a pass of the main loop that sees no new pulse leaves its clock alone:
  -- the anchor, the lock, the frequency, the last pulse, the reference timestamp and the leap
  -- indicator, and the step that is awaited. It makes no difference what the receiver's sentences
  -- say, what the socket, the lookups of zones and the clock chip bring, and when the pass runs.
  pub service_pass-clock :
      (rtc_present : Bool) (r : PassReadings pf) (a : App pf fl B)
      → a.server.pps_locked ≡ true
      → r.pulse_count ≤ a.pps_state.last_count
      → clock_of (service_pass rtc_present r a).server ≡ clock_of a.server
  unfolding service_pass
  service_pass-clock rtc_present r a h quiet =
      let b = poll_gps r a in
      let k = poll_gps-Keeps r a h in
      let c = poll_timezone r.default_tz b.tz_worker b in
      let l = poll_timezone-Keeps r.default_tz b.tz_worker b in
      let d = poll_ntp r c in
      let m = poll_ntp-Keeps r c in
      let acd = Keeps-trans a c d (Keeps-trans a b c k l) m in
      let e = maybe_apply_rtc_fallback r.fallback_us r.seed_us d in
      let n =
        Keeps-trans a d e acd (fallback-Keeps r.fallback_us r.seed_us d (Keeps-locked a d acd h)) in
      let still : r.pulse_count ≤ e.pps_state.last_count =
        subst (λ (p : PpsPollState). r.pulse_count ≤ p.last_count) (sym n.1) quiet in
      let f = refresh_ntp r (poll_pps r e) in
      (self_checks-Keeps rtc_present f).0
      ∙ (refresh_ntp-Keeps r (poll_pps r e)).0
      ∙ ap clock_of (ap (λ (x : App pf fl B). x.server) (quiet_pps r e still))
      ∙ n.0
