-- ===== src/Ntp/Pulse/Second.antt =====
-- The second that is taken for an edge, `observe_pps_pulse` of src/ntp/mod.rs.
use rust_gps_ntp.Common.{
  ℕ, ◌+◌, ◌*◌, ◌<◌, ◌≤◌, ◌^◌, ◌/◌, ◌≡◌, ◌≢◌, refl, ap, ◌∙◌, true, Option, none, some, arith,
  Bool-cases, inl, inr,
}
use rust_gps_ntp.Common.Int.{ℤ, pos, ◌+ℤ◌, ◌-ℤ◌, eqb_ℤ, eqb_ℤ_iff, div_euclid}
use rust_gps_ntp.Common.Words.{wrap_i64, saturating_add}
use rust_gps_ntp.Ntp.Float.{Floats}
use rust_gps_ntp.Ntp.Pulse.{is_pending, settle_second, predicted_second}
use rust_gps_ntp.Ntp.Server.{ClockAnchor, NtpServer, elapsed_since}

is_pending-some : (o : Option ℤ) (d : ℤ) → is_pending o d ≡ true → o ≡ some d
is_pending-some none d h = cc
is_pending-some (some x) d h = ap some ((eqb_ℤ_iff x d).0 h)

rounded : (e : ℕ) → e < 2 ^ 62 → wrap_i64 (pos e +ℤ pos 500_000) ≡ pos (e + 500_000)
unfolding wrap_i64 ◌+ℤ◌
rounded e h = ground arith

module _ {fl : Floats} where
  -- A second other than the predicted one is taken only if it is the one that GPS gives and the
  -- pulse before, too, was off by the same number of seconds.
  pub settle_second-confirmed :
      (predicted : ℤ) (gps : Option ℤ) (s : NtpServer fl)
      → (settle_second predicted gps s).0 ≢ predicted
      → (gps ≡ some (settle_second predicted gps s).0)
        × (s.pending_gps_step ≡ some (wrap_i64 ((settle_second predicted gps s).0 -ℤ predicted)))
  unfolding settle_second
  settle_second-confirmed predicted none s h = absurd (h refl)
  settle_second-confirmed predicted (some g) s h = elim (Bool-cases (eqb_ℤ g predicted)) [
    | inl e ↦ absurd (h (rw e refl))
    | inr e ↦ elim (Bool-cases (is_pending s.pending_gps_step (wrap_i64 (g -ℤ predicted)))) [
      | inl k ↦ rw (e, k) (refl, is_pending-some s.pending_gps_step _ k)
      | inr k ↦ absurd (h (rw (e, k) refl))
    ]
  ]

  -- The predicted second counts whole seconds from the anchor to the edge, to the nearest, where the
  -- elapsed time is not negative and below 2^62 microseconds: missed pulses do not make it lag.
  pub predicted_second-nearest :
      (s : NtpServer fl) (anchor : ClockAnchor) (edge_us : ℤ) (elapsed k : ℕ)
      → elapsed_since s anchor edge_us ≡ pos elapsed
      → elapsed < 2 ^ 62
      → k * 1_000_000 ≤ elapsed + 500_000
      → elapsed < k * 1_000_000 + 500_000
      → predicted_second s anchor edge_us ≡ saturating_add anchor.unix_seconds (pos k)
  unfolding predicted_second div_euclid
  predicted_second-nearest s anchor edge_us elapsed k he hs low high =
      let sum = rounded elapsed hs in
      let count : (elapsed + 500_000) / 1_000_000 ≡ k = omega arith in
      ap
        (λ e.
          saturating_add anchor.unix_seconds (div_euclid (wrap_i64 (e +ℤ pos 500_000)) 1_000_000))
        he
      ∙ ap (λ w. saturating_add anchor.unix_seconds (div_euclid w 1_000_000)) sum
      ∙ ap (λ n. saturating_add anchor.unix_seconds (pos n)) count
