-- ===== src/App/Pass.antt =====
-- One pass of the main loop, `run` of src/app.rs. What a pass only logs is left out.
use rust_gps_ntp.Common.{
  ℕ, ◌-◌, Bool, true, false, Option, none, some, List, [], ◌&&◌, ◌||◌, not, leb, ltb, if◌then◌else◌,
}
use rust_gps_ntp.Common.Int.{ℤ, pos}
use rust_gps_ntp.Ntp.Bytes.{Buffer}
use rust_gps_ntp.Ntp.Float.{Floats}
use rust_gps_ntp.Ntp.Server.{NtpServer}
use rust_gps_ntp.Ntp.Params.{NtpSnapshot, ntp_snapshot}
use rust_gps_ntp.Gps.Uart
use rust_gps_ntp.Ntp.Pulse.{observe_pps_pulse}
use rust_gps_ntp.Ntp.Poll
use rust_gps_ntp.Ntp.Poll.{Received}
use rust_gps_ntp.Pps
use rust_gps_ntp.Pps.{PpsPollState, PpsEvent, first, delta}
use rust_gps_ntp.Protection.Cidr.{Text}
use rust_gps_ntp.Gps.Sentences.{Platform}
use rust_gps_ntp.Gps.Uart.{GpsUart, Call, on_snapshot, on_fix}
use rust_gps_ntp.Ui.Feed.{publish_ntp, publish_pps_delta, request_rtc_write}
use rust_gps_ntp.App.{App, maybe_apply_rtc_fallback, maybe_writeback_rtc, publish_interval_us}
use rust_gps_ntp.App.Zones.{configured_timezone, dispatch_all, poll_timezone}

-- The two readings of the clock, and one of the system's, that a snapshot of the server takes.
pub record SnapshotReadings : Type 0 where
  pub params_us : ℕ
  pub current_us : ℕ
  pub wall : ℕ

-- What one pass of the loop reads: the bytes of the UART and the decoder of UTF-8, the zone and the
-- fudge second of the build, what the socket gives, the pulse monitor's pair, and the clock at the
-- places where the pass reads it: for each call of the consumer by its number, for the snapshots
-- that are published after the poll, at a pulse and in the end, and for the clock chip.
pub record PassReadings (pf : Platform) : Type 0 where
  pub uart_bytes : Option Buffer
  pub utf8 : Buffer → Option Text
  pub default_tz : Option pf.Zone
  pub fudge : ℤ
  pub received : List Received
  pub pulse_count : ℕ
  pub pulse_edge_us : ℕ
  pub utc_us : ℕ → ℕ
  pub lookup_us : ℕ → ℕ
  pub at_served : SnapshotReadings
  pub served_us : ℕ
  pub fallback_us : ℕ
  pub seed_us : ℕ
  pub at_pulse : SnapshotReadings
  pub pulse_us : ℕ
  pub at_write : SnapshotReadings
  pub read_us : ℕ
  pub refresh_us : ℕ
  pub at_refresh : SnapshotReadings

module _ {pf : Platform} {fl : Floats} {B : Type 0} where
  abbrev pub snapshot_now : SnapshotReadings → App pf fl B → NtpSnapshot fl
  snapshot_now r a =
      ntp_snapshot a.server a.uart.snapshot.fix (pos r.params_us) (pos r.current_us) r.wall

  -- The UART and its consumers. The consumers' calls of this pass are those that the poll adds.
  unfoldable pub poll_gps : PassReadings pf → App pf fl B → App pf fl B
  unfolding dispatch_all
  poll_gps r a =
      let idle : GpsUart pf = record a.uart { calls = [] } in
      let u = Uart.poll pf (configured_timezone r.default_tz a) r.utf8 r.uart_bytes idle in
      dispatch_all r.utc_us r.lookup_us 0 u.calls (record a { uart = u })

  abbrev pub after_poll :
      PassReadings pf → NtpServer fl × List Buffer × Bool → App pf fl B → App pf fl B
  after_poll r (server, sent, false) a = record a { server = server }
  after_poll r (server, sent, true) a =
      let b : App pf fl B = record a { server = server } in
      if ltb a.last_ntp_served server.served
      then record b {
        ui_feed = publish_ntp (snapshot_now r.at_served b) a.ui_feed;
        last_ntp_publish_us = r.served_us;
        last_ntp_served = server.served;
      }
      else b

  unfoldable pub poll_ntp : PassReadings pf → App pf fl B → App pf fl B
  unfolding ntp_snapshot publish_ntp
  poll_ntp r a = after_poll r (Poll.poll a.uart.snapshot.fix r.received a.server) a

  -- A pulse: the server, the interval for the screen, and then the snapshot and the chip.
  abbrev pub observe : PassReadings pf → PpsEvent → App pf fl B → App pf fl B
  observe r (first edge_us) a = record a {
    first_pps_logged = true;
    server = observe_pps_pulse r.fudge none edge_us a.server;
  }
  observe r (delta interval_us edge_us) a = record a {
    ui_feed = publish_pps_delta interval_us a.ui_feed;
    server = observe_pps_pulse r.fudge (some interval_us) edge_us a.server;
  }

  abbrev pub after_pulse : PassReadings pf → App pf fl B → App pf fl B
  after_pulse r a =
      maybe_writeback_rtc r.pulse_us r.at_write.params_us r.at_write.current_us r.at_write.wall
        r.read_us
        (record a {
          ui_feed = publish_ntp (snapshot_now r.at_pulse a) a.ui_feed;
          last_ntp_publish_us = r.pulse_us;
        })

  abbrev pub on_event : PassReadings pf → Option PpsEvent → App pf fl B → App pf fl B
  on_event r none a = a
  on_event r (some event) a = after_pulse r (observe r event a)

  unfoldable pub poll_pps : PassReadings pf → App pf fl B → App pf fl B
  unfolding ntp_snapshot publish_ntp publish_pps_delta observe_pps_pulse maybe_writeback_rtc
  poll_pps r a =
      let p : Option PpsEvent × PpsPollState = Pps.poll r.pulse_count r.pulse_edge_us a.pps_state in
      on_event r p.0 (record a { pps_state = p.1 })

  unfoldable pub refresh_ntp : PassReadings pf → App pf fl B → App pf fl B
  unfolding ntp_snapshot publish_ntp
  refresh_ntp r a =
      if leb publish_interval_us (r.refresh_us - a.last_ntp_publish_us)
      then record a {
        ui_feed = publish_ntp (snapshot_now r.at_refresh a) a.ui_feed;
        last_ntp_publish_us = r.refresh_us;
      }
      else a

  -- The self-checks after the loop's sleep; what they only log is left out.
  abbrev pub seed_chip : Option ℤ → App pf fl B → App pf fl B
  seed_chip none a = a
  seed_chip (some utc) a = record a {
    ui_feed = request_rtc_write utc a.ui_feed;
    rtc_seeded_from_gps = true;
  }

  abbrev pub on_first_fix : Bool → App pf fl B → App pf fl B
  on_first_fix rtc_present a =
      let b : App pf fl B = record a { first_fix_logged = true } in
      if rtc_present && not a.rtc_seeded_from_gps
      then seed_chip a.uart.snapshot.utc_unix_seconds b
      else b

  unfoldable pub self_checks : Bool → App pf fl B → App pf fl B
  unfolding request_rtc_write
  self_checks rtc_present a =
      let b : App pf fl B = record a {
        first_nmea_logged = a.first_nmea_logged || ltb 0 a.uart.bytes_seen;
      } in
      let c =
        if not b.first_fix_logged && b.uart.snapshot.fix then on_first_fix rtc_present b else b in
      record c { first_ntp_client_logged = c.first_ntp_client_logged || ltb 0 c.server.served }

  -- One pass of the loop of `run`.
  unfoldable pub service_pass : Bool → PassReadings pf → App pf fl B → App pf fl B
  unfolding poll_gps poll_timezone poll_ntp maybe_apply_rtc_fallback poll_pps refresh_ntp
      self_checks
  service_pass rtc_present r a =
      let b = poll_gps r a in
      let c = poll_timezone r.default_tz b.tz_worker b in
      let d = maybe_apply_rtc_fallback r.fallback_us r.seed_us (poll_ntp r c) in
      self_checks rtc_present (refresh_ntp r (poll_pps r d))
