-- ===== src/Ntp/Params/Holdover.antt =====
-- How long a server without pulses stays at stratum 1: `discipline_params` of src/ntp/mod.rs.
use rust_gps_ntp.Common.{
  ℕ, ◌+◌, ◌-◌, ◌*◌, ◌/◌, ◌^◌, min, ◌<◌, ◌≤◌, ◌≡◌, ◌⊎◌, inl, inr, refl, sym, ◌∙◌, ap, Bool, true,
  false, some, arith, Bool-cases, Option-cases, ltb, ◌&&◌, ◌||◌, ◌==◌, subst, if◌then◌else◌,
}
use rust_gps_ntp.Common.Int.{ℤ, pos, ltb_ℤ, ◌+ℤ◌, ◌-ℤ◌, ◌*ℤ◌, div_euclid, max_ℤ, min_ℤ}
use rust_gps_ntp.Common.Words.{saturating_sub, saturating_mul, wrap_i64, sat_i64}
use rust_gps_ntp.Ntp.Float.{Floats}
use rust_gps_ntp.Ntp.Packet.{DisciplineState, locked, holdover, unsync, stratum_unsync}
use rust_gps_ntp.Ntp.Server.{NtpServer, is_some, ClockAnchor}
use rust_gps_ntp.Ntp.Params.{
  holdover_disp_us, holdover_unsync_us, holdover_entry_us, max_disp_us, disp_us, discipline_params,
  fully_synced, holdover_ok, pps_age_us, root_disp_short_of,
}

-- The seconds of lost pulses.
lost_us-nat :
    (n : ℕ)
    → n < 2 ^ 63
    → max_ℤ (saturating_sub (pos n) holdover_entry_us) (pos 0) ≡ pos (n - 10_000_000)
unfolding max_ℤ saturating_sub sat_i64 ◌-ℤ◌
lost_us-nat n h = ground arith

growth-nat : (q : ℕ) → q < 2 ^ 50 → saturating_mul (pos q) (pos 500) ≡ pos (q * 500)
unfolding saturating_mul sat_i64 ◌*ℤ◌
growth-nat q h = ground arith

cap-nat :
    (g : ℕ)
    → g < 2 ^ 62
    → min_ℤ (wrap_i64 (pos 1_000 +ℤ pos g)) max_disp_us ≡ pos (min (1_000 + g) 2_000_000)
unfolding min_ℤ wrap_i64 ◌+ℤ◌
cap-nat g h = ground arith

pub holdover_disp_us-nat :
    (n : ℕ)
    → n < 2 ^ 63
    → holdover_disp_us (pos n) ≡ pos (min (1_000 + (n - 10_000_000) / 1_000_000 * 500) 2_000_000)
unfolding holdover_disp_us div_euclid
holdover_disp_us-nat n h = rw (
  lost_us-nat n h,
  growth-nat ((n - 10_000_000) / 1_000_000) (omega arith),
  cap-nat ((n - 10_000_000) / 1_000_000 * 500) (omega arith),
)

below_unsync :
    (n : ℕ) → n < 2 ^ 63 → ltb_ℤ (holdover_disp_us (pos n)) holdover_unsync_us ≡ ltb n 2_008_000_000
below_unsync n h = rw (holdover_disp_us-nat n h) (ground arith)

-- The stratum, from whether the clock is synchronised and whether holdover still serves.
abbrev pub stratum_of : Bool → Bool → ℕ
stratum_of synced ok = if synced || ok then 1 else stratum_unsync

module _ {fl : Floats} where
  fully_synced-eq :
      (s : NtpServer fl) (gps_fix : Bool) (now : ℤ) (n : ℕ) (anchor : ClockAnchor)
      → s.clock_anchor ≡ some anchor
      → pps_age_us s now ≡ pos n
      → fully_synced s gps_fix now ≡ (gps_fix && ltb n 10_000_000)
  unfolding fully_synced
  fully_synced-eq s false now n anchor ha hn = refl
  fully_synced-eq s true now n anchor ha hn = rw (ha, hn) (ground arith)

  disp_us-lost :
      (s : NtpServer fl) (gps_fix : Bool) (now : ℤ) (n : ℕ) (anchor : ClockAnchor)
      → s.clock_anchor ≡ some anchor
      → pps_age_us s now ≡ pos n
      → fully_synced s gps_fix now ≡ false
      → disp_us s gps_fix now ≡ holdover_disp_us (pos n)
  unfolding disp_us
  disp_us-lost s gps_fix now n anchor ha hn hs = rw (hs, ha, hn) refl

  holdover_ok-eq :
      (s : NtpServer fl) (gps_fix : Bool) (now : ℤ) (n : ℕ) (anchor : ClockAnchor)
      → s.pps_locked ≡ true
      → s.clock_anchor ≡ some anchor
      → pps_age_us s now ≡ pos n
      → n < 2 ^ 63
      → fully_synced s gps_fix now ≡ false
      → holdover_ok s gps_fix now ≡ ltb n 2_008_000_000
  unfolding holdover_ok
  holdover_ok-eq s gps_fix now n anchor hl ha hn h hs =
      ap (λ d. s.pps_locked && is_some s.clock_anchor && ltb_ℤ d holdover_unsync_us)
        (disp_us-lost s gps_fix now n anchor ha hn hs)
      ∙ ap (λ b. b && is_some s.clock_anchor && below) hl
      ∙ ap (λ a. is_some a && below) ha
      ∙ below_unsync n h
    where
      below : Bool
      below = ltb_ℤ (holdover_disp_us (pos n)) holdover_unsync_us

  -- A locked clock stays at stratum 1 as long as its last pulse is less than 2008 s old, with or
  -- without a fix, and is at stratum 16 from then on; the age is a number of microseconds in the
  -- range of the clock.
  pub stratum-age :
      (s : NtpServer fl) (gps_fix : Bool) (now current : ℤ) (wall n : ℕ) (anchor : ClockAnchor)
      → s.pps_locked ≡ true
      → s.clock_anchor ≡ some anchor
      → pps_age_us s now ≡ pos n
      → n < 2 ^ 63
      → (discipline_params s gps_fix now current wall).stratum
        ≡ (if ltb n 2_008_000_000 then 1 else stratum_unsync)
  unfolding discipline_params
  stratum-age s gps_fix now current wall n anchor hl ha hn h =
      elim (Bool-cases (fully_synced s gps_fix now)) [
        | inl e ↦
            ap (λ b. stratum_of b (holdover_ok s gps_fix now)) e
            ∙ sym (
                ap (λ b. if b then 1 else stratum_unsync)
                  (still_young gps_fix n (sym (fully_synced-eq s gps_fix now n anchor ha hn) ∙ e)))
        | inr e ↦
            ap (λ b. stratum_of b (holdover_ok s gps_fix now)) e
            ∙ ap (stratum_of false) (holdover_ok-eq s gps_fix now n anchor hl ha hn h e)
      ]
    where
      still_young : (b : Bool) (m : ℕ) → (b && ltb m 10_000_000) ≡ true → ltb m 2_008_000_000 ≡ true
      still_young b m k = ground arith

-- What the state of the discipline says of the stratum and the leap indicator.
abbrev pub Reports : DisciplineState → ℕ → ℕ → ℕ → Type 0
Reports locked pending stratum leap = (stratum ≡ 1) × (leap ≡ pending)
Reports holdover pending stratum leap = (stratum ≡ 1) × (leap ≡ pending)
Reports unsync pending stratum leap = (stratum ≡ stratum_unsync) × (leap ≡ 3)

Reports_lem :
    (synced ok : Bool) (pending : ℕ)
    → Reports
        (if synced then locked else if stratum_of synced ok == 1 then holdover else unsync)
        pending
        (stratum_of synced ok)
        (if stratum_of synced ok == 1 then pending else 3)
Reports_lem true ok pending = (refl, refl)
Reports_lem false true pending = (refl, refl)
Reports_lem false false pending = (refl, refl)

abbrev Bounded : Bool → Bool → ℤ → Type 0
Bounded synced ok d =
    (root_disp_short_of d ≤ 2 * 2 ^ 16)
    × ((stratum_of synced ok ≡ stratum_unsync) ⊎ (root_disp_short_of d < 2 ^ 16))

-- The dispersion in the short format, for a clock that has lost its pulses.
short-bounds :
    (ok : Bool) (m : ℕ)
    → m ≤ 2_000_000
    → Bounded false (ok && ltb_ℤ (pos m) holdover_unsync_us) (pos m)
unfolding root_disp_short_of
short-bounds false m h = (omega arith, inl refl)
short-bounds true m h = elim (Bool-cases (ltb m 1_000_000)) [
  | inl e ↦ (omega arith, inr (ground arith))
  | inr e ↦ (omega arith, inl (ground arith))
]

module _ {fl : Floats} where
  -- The state, the stratum and the leap indicator of the reported parameters agree: a locked server
  -- and one in holdover are at stratum 1 with the leap indicator that was set, any other is at
  -- stratum 16 with the alarm.
  pub discipline_params-Reports :
      (s : NtpServer fl) (gps_fix : Bool) (now current : ℤ) (wall : ℕ)
      → let dp = discipline_params s gps_fix now current wall in
        Reports dp.state s.pending_leap dp.stratum dp.leap
  unfolding discipline_params
  discipline_params-Reports s gps_fix now current wall =
      Reports_lem (fully_synced s gps_fix now) (holdover_ok s gps_fix now) s.pending_leap

  disp_us-small :
      (s : NtpServer fl) (gps_fix : Bool) (now : ℤ) (n : ℕ)
      → fully_synced s gps_fix now ≡ false
      → pps_age_us s now ≡ pos n
      → n < 2 ^ 63
      → (m : ℕ) × (disp_us s gps_fix now ≡ pos m) × (m ≤ 2_000_000)
  unfolding disp_us
  disp_us-small s gps_fix now n hs hn h = elim (Option-cases s.clock_anchor) [
    | inl e ↦ (2_000_000, rw (hs, e) refl, omega arith)
    | inr (anchor, e) ↦ (
      min (1_000 + (n - 10_000_000) / 1_000_000 * 500) 2_000_000,
      rw (hs, e, hn) (holdover_disp_us-nat n h),
      omega arith,
    )
  ]

  -- A server that lacks fresh pulses never reports a root dispersion of more than two seconds, and
  -- one below one second while it is at stratum 1; the age of its last pulse is a number of
  -- microseconds in the range of the clock.
  pub root_disp_short-bounds :
      (s : NtpServer fl) (gps_fix : Bool) (now current : ℤ) (wall n : ℕ)
      → fully_synced s gps_fix now ≡ false
      → pps_age_us s now ≡ pos n
      → n < 2 ^ 63
      → let dp = discipline_params s gps_fix now current wall in
        (dp.root_disp_short ≤ 2 * 2 ^ 16)
        × ((dp.stratum ≡ stratum_unsync) ⊎ (dp.root_disp_short < 2 ^ 16))
  unfolding discipline_params holdover_ok
  root_disp_short-bounds s gps_fix now current wall n hs hn h =
      let (m, e, hm) = disp_us-small s gps_fix now n hs hn h in
      let ok = s.pps_locked && is_some s.clock_anchor in
      let disp = disp_us s gps_fix now in
      subst (λ b. Bounded b (ok && ltb_ℤ disp holdover_unsync_us) disp) (sym hs)
        (subst (λ d. Bounded false (ok && ltb_ℤ d holdover_unsync_us) d) (sym e)
          (short-bounds ok m hm))
