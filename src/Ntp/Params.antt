-- ===== src/Ntp/Params.antt =====
-- `discipline_params`, `servo_stats` and `ntp_snapshot` of src/ntp/mod.rs: what the server reports
-- of its clock, from the age of the last pulse.
pub mod Holdover
use rust_gps_ntp.Common.{
  ℕ, ◌*◌, ◌/◌, ◌^◌, Bool, true, false, Option, none, some, ◌&&◌, ◌||◌, ◌==◌, if◌then◌else◌,
}
use rust_gps_ntp.Common.Int.{ℤ, pos, negsuc, ◌+ℤ◌, ◌*ℤ◌, div_euclid, div_trunc, max_ℤ, min_ℤ, ltb_ℤ}
use rust_gps_ntp.Common.Words.{
  saturating_sub, saturating_mul, wrap_i64, i64_max, u32, u64, u64_of_i64,
}
use rust_gps_ntp.Ntp.Float.{Floats}
use rust_gps_ntp.Ntp.Packet.{
  DisciplineParams, DisciplineState, locked, holdover, unsync, stratum_unsync,
}
use rust_gps_ntp.Ntp.Server.{NtpServer, is_some, current_ntp_timestamp, float32_zero}

abbrev pub holdover_entry_us : ℤ
holdover_entry_us = pos 10_000_000

abbrev pub max_disp_us : ℤ
max_disp_us = pos 2_000_000

abbrev pub holdover_unsync_us : ℤ
holdover_unsync_us = pos 1_000_000

abbrev pub min_hw_accuracy_us : ℤ
min_hw_accuracy_us = pos 100

abbrev pub loop_poll_uncertainty_us : ℤ
loop_poll_uncertainty_us = pos 500

-- The dispersion of a clock that has lost its pulses, from the age of the last: 1 ms, and 0.5 ms for
-- each second after the first ten, up to 2 s.
unfoldable pub holdover_disp_us : ℤ → ℤ
unfolding saturating_sub saturating_mul max_ℤ min_ℤ div_euclid wrap_i64 ◌+ℤ◌
holdover_disp_us age =
    let lost = max_ℤ (saturating_sub age holdover_entry_us) (pos 0) in
    let growth = saturating_mul (div_euclid lost 1_000_000) (pos 500) in
    min_ℤ (wrap_i64 (pos 1_000 +ℤ growth)) max_disp_us

-- `ServoStats`.
pub record ServoStats (fl : Floats) : Type 0 where
  pub stats_offset_us : ℤ
  pub stats_jitter_us : fl.F32
  pub stats_proc_delay_us : fl.F32
  pub stats_freq_ppm : fl.F64

-- `NtpSnapshot`.
pub record NtpSnapshot (fl : Floats) : Type 0 where
  pub snapshot_stratum : ℕ
  pub snapshot_state : DisciplineState
  pub snapshot_freq_ppm : fl.F64
  pub snapshot_offset_us : ℤ
  pub snapshot_jitter_us : fl.F32
  pub snapshot_root_disp_ms : fl.F64
  pub snapshot_served : ℕ
  pub rate_limited : ℕ
  pub acl_blocked : ℕ
  pub glitch_count : ℕ
  pub step_count : ℕ
  pub leap_indicator : ℕ
  pub snapshot_proc_delay_us : fl.F32
  pub snapshot_delay_has_sample : Bool

-- The NTP short format.
unfoldable pub root_disp_short_of : ℤ → ℕ
root_disp_short_of disp = u32 (u64 (u64_of_i64 disp * 2 ^ 16) / 1_000_000)

module _ (fl : Floats) where
  unfoldable pub ntp_precision_from_uncertainty_us : fl.F64 → ℤ
  ntp_precision_from_uncertainty_us uncertainty_us =
      let secs = fl.div (fl.max uncertainty_us (fl.lit (pos 1) 0)) (fl.lit (pos 1_000_000) 0) in
      fl.to_i8 (fl.clamp (fl.floor (fl.log2 secs)) (fl.lit (negsuc 19) 0) (fl.lit (negsuc 3) 0))

module _ {fl : Floats} where
  abbrev pub pps_age_us : NtpServer fl → ℤ → ℤ
  pps_age_us s now_us = elim s.last_pps_monotonic_us [
    | none ↦ i64_max
    | some t ↦ saturating_sub now_us t
  ]

  unfoldable pub fully_synced : NtpServer fl → Bool → ℤ → Bool
  unfolding saturating_sub
  fully_synced s gps_fix now_us =
      gps_fix && ltb_ℤ (pps_age_us s now_us) holdover_entry_us && is_some s.clock_anchor

  -- The dispersion under fresh pulses: the jitter, at least 100 µs, and 15 µs for each second of age.
  unfoldable pub synced_disp_us : NtpServer fl → ℤ → ℤ
  unfolding saturating_sub max_ℤ min_ℤ wrap_i64 div_trunc ◌*ℤ◌ ◌+ℤ◌
  synced_disp_us s now_us =
      let hw_accuracy =
        (if s.pps_has_sample
          then max_ℤ (fl.round_to_i64 s.pps_jitter_us) min_hw_accuracy_us
          else min_hw_accuracy_us) in
      let age = min_ℤ (pps_age_us s now_us) (pos 1_000_000) in
      wrap_i64 (hw_accuracy +ℤ div_trunc (wrap_i64 (pos 15 *ℤ age)) 1_000_000)

  unfoldable pub disp_us : NtpServer fl → Bool → ℤ → ℤ
  unfolding fully_synced synced_disp_us holdover_disp_us saturating_sub
  disp_us s gps_fix now_us =
      if fully_synced s gps_fix now_us
      then synced_disp_us s now_us
      else if is_some s.clock_anchor
      then holdover_disp_us (pps_age_us s now_us)
      else max_disp_us

  unfoldable pub holdover_ok : NtpServer fl → Bool → ℤ → Bool
  unfolding disp_us
  holdover_ok s gps_fix now_us =
      s.pps_locked && is_some s.clock_anchor && ltb_ℤ (disp_us s gps_fix now_us) holdover_unsync_us

  -- The worst-case error under fresh pulses.
  unfoldable pub uncertainty_us : NtpServer fl → fl.F32
  uncertainty_us s =
      let floor_us = fl.of_int32 min_hw_accuracy_us in
      let jitter = (if s.pps_has_sample then fl.max32 s.pps_jitter_us floor_us else floor_us) in
      let poll = fl.max32 jitter (fl.of_int32 loop_poll_uncertainty_us) in
      if s.proc_delay_has_sample then fl.max32 poll s.proc_delay_us else poll

  unfoldable pub precision_of : NtpServer fl → Bool → ℤ → ℤ
  unfolding fully_synced disp_us uncertainty_us ntp_precision_from_uncertainty_us
  precision_of s gps_fix now_us = ntp_precision_from_uncertainty_us fl (
      if fully_synced s gps_fix now_us
      then fl.widen (uncertainty_us s)
      else fl.of_int (if is_some s.clock_anchor then disp_us s gps_fix now_us else max_disp_us))

  -- The clock is read once for the age, and once more for the current time.
  unfoldable pub discipline_params : NtpServer fl → Bool → ℤ → ℤ → ℕ → DisciplineParams fl.F64
  unfolding fully_synced holdover_ok disp_us precision_of root_disp_short_of current_ntp_timestamp
  discipline_params s gps_fix now_us current_us wall =
      let synced = fully_synced s gps_fix now_us in
      let serving = synced || holdover_ok s gps_fix now_us in
      let stratum = (if serving then 1 else stratum_unsync) in
      let disp = disp_us s gps_fix now_us in
      record {
        stratum = stratum;
        state = (if synced then locked else if stratum == 1 then holdover else unsync);
        leap = (if stratum == 1 then s.pending_leap else 3);
        root_disp_short = root_disp_short_of disp;
        root_disp_ms = fl.div (fl.of_int disp) (fl.lit (pos 1_000) 0);
        ref_ts = s.last_sync_ntp_ts;
        current_ts = current_ntp_timestamp s current_us wall;
        precision = precision_of s gps_fix now_us;
      }

  unfoldable pub servo_stats : NtpServer fl → ServoStats fl
  servo_stats s = record {
    stats_offset_us = s.pps_offset_us;
    stats_jitter_us = s.pps_jitter_us;
    stats_proc_delay_us = s.proc_delay_us;
    stats_freq_ppm = s.freq_ppm;
  }

  unfoldable pub ntp_snapshot : NtpServer fl → Bool → ℤ → ℤ → ℕ → NtpSnapshot fl
  unfolding discipline_params
  ntp_snapshot s gps_fix now_us current_us wall =
      let dp = discipline_params s gps_fix now_us current_us wall in
      record {
        snapshot_stratum = dp.stratum;
        snapshot_state = dp.state;
        snapshot_freq_ppm = s.freq_ppm;
        snapshot_offset_us = s.pps_offset_us;
        snapshot_jitter_us = s.pps_jitter_us;
        snapshot_root_disp_ms = dp.root_disp_ms;
        snapshot_served = s.served;
        rate_limited = s.rate_limited_total;
        acl_blocked = s.acl_blocked_total;
        glitch_count = s.pps_glitch_count;
        step_count = s.anchor_step_count;
        leap_indicator = dp.leap;
        snapshot_proc_delay_us =
            (if s.proc_delay_has_sample then s.proc_delay_us else float32_zero fl);
        snapshot_delay_has_sample = s.proc_delay_has_sample;
      }
