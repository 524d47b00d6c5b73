-- ===== src/Ntp/Pulse.antt =====
-- `observe_pps_pulse` of src/ntp/mod.rs, with the pairing of pulses and GPS seconds.
pub mod Second
pub mod Lock
use rust_gps_ntp.Common.{
  ℕ, Bool, true, false, Option, none, some, List, [], ◌∷◌, ◌&&◌, not, ltb, leb, ◌==◌, if◌then◌else◌,
  ◌>>=◌, ◌>>◌, ensure,
}
use rust_gps_ntp.Common.Int.{ℤ, pos, negsuc, ◌+ℤ◌, ◌-ℤ◌, div_euclid, ltb_ℤ, eqb_ℤ, nat_abs}
use rust_gps_ntp.Common.Words.{saturating_sub, saturating_add, saturating_inc, wrap_i64}
use rust_gps_ntp.Ntp.Float.{Floats}
use rust_gps_ntp.Ntp.Server.{ClockAnchor, NtpServer, elapsed_since}
use rust_gps_ntp.Ntp.Timestamp.{ntp_timestamp_from_unix}

abbrev pub gps_stale_threshold_us : ℤ
gps_stale_threshold_us = pos 2_000_000

abbrev pub pps_outlier_threshold_us : ℕ
pps_outlier_threshold_us = 50_000

-- Seconds from an NMEA sentence to its edge: `0` if the build's setting reads "0", else 1.
unfoldable pub nmea_pps_fudge_s : List ℕ → ℤ
nmea_pps_fudge_s (c ∷ []) = if c == b'0' then pos 0 else pos 1
nmea_pps_fudge_s _ = pos 1

abbrev pub is_pending : Option ℤ → ℤ → Bool
is_pending none delta = false
is_pending (some d) delta = eqb_ℤ d delta

abbrev pub in_range : ℕ → Bool
in_range interval = leb 800_000 interval && leb interval 1_200_000

module _ {fl : Floats} where
  unfoldable pub gps_time_fresh : NtpServer fl → ℤ → Bool
  unfolding saturating_sub
  gps_time_fresh s edge_us = elim s.last_gps_utc_update_us [
    | none ↦ false
    | some t ↦ ltb_ℤ (saturating_sub edge_us t) gps_stale_threshold_us
  ]

  unfoldable pub gps_second_at_edge : ℤ → NtpServer fl → ℤ → Option ℤ
  unfolding gps_time_fresh saturating_add div_euclid
  gps_second_at_edge fudge s edge_us = do
    ensure (gps_time_fresh s edge_us)
    gps_utc ← s.last_gps_utc_seconds
    t_nmea ← s.last_gps_utc_update_us
    some (
        saturating_add
          (saturating_add gps_utc (div_euclid (saturating_sub edge_us t_nmea) 1_000_000)) fudge)

  unfoldable pub lock_anchor : ℤ → ℤ → NtpServer fl → NtpServer fl
  unfolding ntp_timestamp_from_unix
  lock_anchor unix_seconds edge_us s = record s {
    clock_anchor = some (record { unix_seconds = unix_seconds; monotonic_us = edge_us });
    pps_locked = true;
    pending_gps_step = none;
    last_pps_monotonic_us = some edge_us;
    last_sync_ntp_ts = ntp_timestamp_from_unix unix_seconds 0;
  }

  -- The lock of a first pulse: only where the GPS second of the edge is known.
  unfoldable pub try_lock : ℤ → ℤ → NtpServer fl → NtpServer fl
  unfolding gps_second_at_edge lock_anchor
  try_lock fudge edge_us s = elim (gps_second_at_edge fudge s edge_us) [
    | none ↦ s
    | some unix_seconds ↦ lock_anchor unix_seconds edge_us s
  ]

  -- The frequency estimate: an EWMA of the interval error, clamped.
  unfoldable pub blend_freq : NtpServer fl → ℤ → fl.F64
  blend_freq s phase_error_us =
      fl.clamp
        (fl.add s.freq_ppm
          (fl.mul (fl.sub (fl.of_int phase_error_us) s.freq_ppm) (fl.lit (pos 1) 2)))
        (fl.lit (negsuc 499) 0) (fl.lit (pos 500) 0)

  -- The second that the last anchor predicts for the edge: whole seconds of corrected elapsed time,
  -- rounded to the nearest.
  unfoldable pub predicted_second : NtpServer fl → ClockAnchor → ℤ → ℤ
  unfolding elapsed_since saturating_add div_euclid wrap_i64 ◌+ℤ◌
  predicted_second s anchor edge_us =
      saturating_add anchor.unix_seconds
        (div_euclid (wrap_i64 (elapsed_since s anchor edge_us +ℤ pos 500_000)) 1_000_000)

  -- The second that is taken for the edge, with the step counter and the step that awaits
  -- confirmation brought up to date.
  unfoldable pub settle_second : ℤ → Option ℤ → NtpServer fl → ℤ × NtpServer fl
  unfolding wrap_i64 ◌-ℤ◌ saturating_inc
  settle_second predicted none s = (predicted, record s { pending_gps_step = none })
  settle_second predicted (some gps) s =
      let delta = wrap_i64 (gps -ℤ predicted) in
      if eqb_ℤ gps predicted
      then (predicted, record s { pending_gps_step = none })
      else if is_pending s.pending_gps_step delta
      then (
        gps,
        record s {
          pending_gps_step = none;
          anchor_step_count = saturating_inc s.anchor_step_count;
        },
      )
      else (predicted, record s { pending_gps_step = some delta })

  -- The diagnostics of an accepted pulse.
  unfoldable pub note_phase : ℤ → NtpServer fl → NtpServer fl
  note_phase phase_error_us s =
      let sample = fl.of_int32 (pos (nat_abs phase_error_us)) in
      record s {
        pps_offset_us = phase_error_us;
        pps_jitter_us =
            (if s.pps_has_sample
              then fl.add32 (fl.mul32 s.pps_jitter_us (fl.lit32 (pos 8) 1))
                  (fl.mul32 sample (fl.lit32 (pos 2) 1))
              else sample);
        pps_has_sample = true;
      }

  -- An accepted pulse, from the frequency estimate to the reference timestamp.
  unfoldable pub discipline : ℤ → ClockAnchor → ℤ → ℤ → NtpServer fl → NtpServer fl
  unfolding blend_freq predicted_second settle_second note_phase saturating_sub gps_second_at_edge
      ntp_timestamp_from_unix
  discipline fudge anchor phase_error_us edge_us s =
      let tuned = record s { freq_ppm = blend_freq s phase_error_us } in
      let settled =
        settle_second (predicted_second tuned anchor edge_us)
          (gps_second_at_edge fudge tuned edge_us) tuned in
      let correction = fl.to_i64 (fl.mul (fl.of_int phase_error_us) (fl.lit (pos 1) 1)) in
      record (note_phase phase_error_us settled.1) {
        clock_anchor =
            some (record {
              unix_seconds = settled.0;
              monotonic_us = saturating_sub edge_us correction;
            });
        last_pps_monotonic_us = some edge_us;
        last_sync_ntp_ts = ntp_timestamp_from_unix settled.0 0;
      }

  -- `clock_anchor.filter(|_| pps_locked)`.
  abbrev pub locked_anchor : NtpServer fl → Option ClockAnchor
  locked_anchor s = if s.pps_locked then s.clock_anchor else none

  abbrev pub is_outlier : NtpServer fl → ℤ → Bool
  is_outlier s phase_error_us =
      s.pps_has_sample && ltb pps_outlier_threshold_us (nat_abs phase_error_us)

  -- A pulse with an interval, when the clock is locked.
  unfoldable pub locked_pulse : ℤ → ClockAnchor → ℤ → ℤ → NtpServer fl → NtpServer fl
  unfolding discipline saturating_inc
  locked_pulse fudge anchor phase_error_us edge_us s =
      if is_outlier s phase_error_us
      then record s { pps_glitch_count = saturating_inc s.pps_glitch_count }
      else discipline fudge anchor phase_error_us edge_us s

  unfoldable pub interval_pulse : ℤ → ℕ → ℤ → NtpServer fl → NtpServer fl
  unfolding try_lock locked_pulse ◌-ℤ◌
  interval_pulse fudge interval edge_us s =
      if not (in_range interval) then s else (elim (locked_anchor s) [
        | none ↦ try_lock fudge edge_us s
        | some anchor ↦ locked_pulse fudge anchor (pos interval -ℤ pos 1_000_000) edge_us s
      ])

  unfoldable pub observe_pps_pulse : ℤ → Option ℕ → ℤ → NtpServer fl → NtpServer fl
  unfolding try_lock interval_pulse
  observe_pps_pulse fudge none edge_us s = try_lock fudge edge_us s
  observe_pps_pulse fudge (some interval) edge_us s = interval_pulse fudge interval edge_us s
