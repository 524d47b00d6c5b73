-- ===== src/Ntp/Server.antt =====
-- The state of `NtpServer` in src/ntp/mod.rs, without its socket, and its setters. A clock reading
-- that the code takes is an argument.
use rust_gps_ntp.Common.{ℕ, Bool, true, false, Option, none, some, ◌||◌, min, if◌then◌else◌}
use rust_gps_ntp.Common.Int.{ℤ, pos, div_euclid, rem_euclid, max_ℤ}
use rust_gps_ntp.Common.Words.{saturating_sub, saturating_add}
use rust_gps_ntp.Ntp.Float.{Floats}
use rust_gps_ntp.Ntp.Timestamp.{ntp_timestamp_from_unix}
use rust_gps_ntp.Protection.Acl.{Acl, allow_all, from_config}
use rust_gps_ntp.Protection.Cidr.{Text}
use rust_gps_ntp.Protection.Limiter.{Table, new_limiter}

pub record ClockAnchor : Type 0 where
  pub unix_seconds : ℤ
  pub monotonic_us : ℤ

pub record NtpServer (fl : Floats) : Type 0 where
  pub served : ℕ
  pub clock_anchor : Option ClockAnchor
  pub last_gps_utc_seconds : Option ℤ
  pub pps_locked : Bool
  pub pps_offset_us : ℤ
  pub pps_jitter_us : fl.F32
  pub pps_has_sample : Bool
  pub proc_delay_us : fl.F32
  pub proc_delay_has_sample : Bool
  pub freq_ppm : fl.F64
  pub last_pps_monotonic_us : Option ℤ
  pub last_sync_ntp_ts : ℕ
  pub rate_limiter : Table
  pub acl : Acl
  pub rate_limited_total : ℕ
  pub acl_blocked_total : ℕ
  pub pending_leap : ℕ
  pub pps_glitch_count : ℕ
  pub anchor_step_count : ℕ
  pub pending_gps_step : Option ℤ
  pub last_gps_utc_update_us : Option ℤ

abbrev pub is_some {ℓ} : {A : Type ℓ} → Option A → Bool
is_some none = false
is_some (some _) = true

module _ (fl : Floats) where
  -- The literal `0.0`.
  abbrev pub float_zero : fl.F64
  float_zero = fl.lit (pos 0) 0

  abbrev pub float32_zero : fl.F32
  float32_zero = fl.lit32 (pos 0) 0

  unfoldable pub from_socket : NtpServer fl
  unfolding new_limiter allow_all
  from_socket = record {
    served = 0;
    clock_anchor = none;
    last_gps_utc_seconds = none;
    pps_locked = false;
    pps_offset_us = pos 0;
    pps_jitter_us = float32_zero;
    pps_has_sample = false;
    proc_delay_us = float32_zero;
    proc_delay_has_sample = false;
    freq_ppm = float_zero;
    last_pps_monotonic_us = none;
    last_sync_ntp_ts = 0;
    rate_limiter = new_limiter;
    acl = allow_all;
    rate_limited_total = 0;
    acl_blocked_total = 0;
    pending_leap = 0;
    pps_glitch_count = 0;
    anchor_step_count = 0;
    pending_gps_step = none;
    last_gps_utc_update_us = none;
  }

module _ {fl : Floats} where
  unfoldable pub set_acl : Acl → NtpServer fl → NtpServer fl
  set_acl acl s = record s { acl = acl }

  -- The configured text is a constant of the build.
  unfoldable pub apply_boot_acl : Text → NtpServer fl → NtpServer fl
  unfolding set_acl from_config
  apply_boot_acl acl_cidr s = set_acl (from_config acl_cidr) s

  unfoldable pub set_leap_indicator : ℕ → NtpServer fl → NtpServer fl
  set_leap_indicator li s = record s { pending_leap = min li 2 }

  unfoldable pub seed_utc_seconds : ℤ → ℤ → NtpServer fl → NtpServer fl
  seed_utc_seconds utc now_us s =
      if s.pps_locked || is_some s.clock_anchor
      then s
      else record s { clock_anchor = some (record { unix_seconds = utc; monotonic_us = now_us }) }

  unfoldable pub update_gps_utc_seconds : ℤ → ℤ → NtpServer fl → NtpServer fl
  update_gps_utc_seconds utc now_us s =
      let noted = record s {
        last_gps_utc_seconds = some utc;
        last_gps_utc_update_us = some now_us;
      } in
      if s.pps_locked then noted else record noted {
        clock_anchor = some (record { unix_seconds = utc; monotonic_us = now_us });
      }

  -- Elapsed time by the frequency estimate, never negative.
  unfoldable pub corrected_elapsed_us : NtpServer fl → ℤ → ℤ
  unfolding max_ℤ
  corrected_elapsed_us s raw =
      let scale = fl.sub (fl.lit (pos 1) 0) (fl.div s.freq_ppm (fl.lit (pos 1_000_000) 0)) in
      max_ℤ
        (if fl.eq s.freq_ppm (float_zero fl) then raw else fl.to_i64 (fl.mul (fl.of_int raw) scale))
        (pos 0)

  unfoldable pub elapsed_since : NtpServer fl → ClockAnchor → ℤ → ℤ
  unfolding saturating_sub corrected_elapsed_us
  elapsed_since s anchor now_us = corrected_elapsed_us s (saturating_sub now_us anchor.monotonic_us)

  unfoldable pub current_utc_unix_seconds : NtpServer fl → ℤ → Option ℤ
  unfolding elapsed_since saturating_add div_euclid
  current_utc_unix_seconds s now_us = elim s.clock_anchor [
    | none ↦ none
    | some anchor ↦
        some (
          saturating_add anchor.unix_seconds (div_euclid (elapsed_since s anchor now_us) 1_000_000))
  ]

  -- `wall` is what the system's wall clock gives where there is no anchor yet.
  unfoldable pub current_ntp_timestamp : NtpServer fl → ℤ → ℕ → ℕ
  unfolding elapsed_since saturating_add div_euclid rem_euclid ntp_timestamp_from_unix
  current_ntp_timestamp s now_us wall = elim s.clock_anchor [
    | none ↦ wall
    | some anchor ↦
        let elapsed = elapsed_since s anchor now_us in
        ntp_timestamp_from_unix (saturating_add anchor.unix_seconds (div_euclid elapsed 1_000_000))
          (rem_euclid elapsed 1_000_000)
  ]

  -- The EWMA of the processing delay.
  unfoldable pub record_proc_delay : ℤ → ℤ → NtpServer fl → NtpServer fl
  unfolding saturating_sub max_ℤ
  record_proc_delay started_us finished_us s =
      let sample = fl.of_int32 (max_ℤ (saturating_sub finished_us started_us) (pos 1)) in
      if s.proc_delay_has_sample
      then record s {
        proc_delay_us =
            fl.add32 (fl.mul32 s.proc_delay_us (fl.lit32 (pos 8) 1))
              (fl.mul32 sample (fl.lit32 (pos 2) 1));
      }
      else record s { proc_delay_us = sample; proc_delay_has_sample = true }
