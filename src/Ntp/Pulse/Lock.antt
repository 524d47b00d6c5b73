-- ===== src/Ntp/Pulse/Lock.antt =====
-- What every operation of `NtpServer` keeps, and when its clock locks: src/ntp/mod.rs.
use rust_gps_ntp.Common.{
  ℕ, ◌≤◌, ◌≡◌, refl, sym, ap, ◌∙◌, subst, Bool, true, false, Option, none, some, Bool-cases, inl,
  inr, if◌then◌else◌,
}
use rust_gps_ntp.Common.Int.{ℤ, pos, ◌-ℤ◌, eqb_ℤ}
use rust_gps_ntp.Common.Words.{wrap_i64, saturating_sub, saturating_inc}
use rust_gps_ntp.Ntp.Float.{Floats}
use rust_gps_ntp.Ntp.Pulse.{
  gps_time_fresh, gps_second_at_edge, lock_anchor, try_lock, is_pending, settle_second, note_phase,
  blend_freq, predicted_second, discipline, in_range, is_outlier, locked_pulse, interval_pulse,
  observe_pps_pulse,
}
use rust_gps_ntp.Ntp.Server.{ClockAnchor, NtpServer, is_some}
use rust_gps_ntp.Ntp.Timestamp.{ntp_timestamp_from_unix}

-- The reference timestamp is that of the anchor's second, or zero before the first lock.
abbrev pub Synced : Bool → Option ClockAnchor → ℕ → Type 0
Synced false anchor ts = ts ≡ 0
Synced true none ts = ⊥
Synced true (some anchor) ts = ts ≡ ntp_timestamp_from_unix anchor.unix_seconds 0

Synced-locked :
    (b : Bool)
    → b ≡ true
    → (a : ClockAnchor) → Synced b (some a) (ntp_timestamp_from_unix a.unix_seconds 0)
Synced-locked true h a = refl
Synced-locked false h a = cc

module _ {fl : Floats} where
  -- A server is locked when it has had a pulse, stores a leap indicator other than the alarm, and
  -- its reference timestamp is that of its anchor.
  abbrev pub IsServer : NtpServer fl → Type 0
  IsServer s =
      (is_some s.last_pps_monotonic_us ≡ s.pps_locked)
      × (s.pending_leap ≤ 2)
      × Synced s.pps_locked s.clock_anchor s.last_sync_ntp_ts

  IsServer-if :
      (b : Bool) (x y : NtpServer fl) → IsServer x → IsServer y → IsServer (if b then x else y)
  IsServer-if true x y h k = h
  IsServer-if false x y h k = k

  lock-IsServer :
      (second : Option ℤ) (edge_us : ℤ) (s : NtpServer fl)
      → IsServer s
      → IsServer (elim second [ none ↦ s | some u ↦ lock_anchor u edge_us s ])
  unfolding lock_anchor
  lock-IsServer none edge_us s h = h
  lock-IsServer (some u) edge_us s h = (refl, h.1, refl)

  try_lock-IsServer :
      (fudge edge_us : ℤ) (s : NtpServer fl) → IsServer s → IsServer (try_lock fudge edge_us s)
  unfolding try_lock
  try_lock-IsServer fudge edge_us s h =
      lock-IsServer (gps_second_at_edge fudge s edge_us) edge_us s h

  -- The settling of the second leaves the lock and the leap indicator alone.
  settle_second-keeps :
      (predicted : ℤ) (gps : Option ℤ) (s : NtpServer fl)
      → ((settle_second predicted gps s).1.pps_locked ≡ s.pps_locked)
        × ((settle_second predicted gps s).1.pending_leap ≡ s.pending_leap)
  unfolding settle_second
  settle_second-keeps predicted none s = (refl, refl)
  settle_second-keeps predicted (some g) s = elim (Bool-cases (eqb_ℤ g predicted)) [
    | inl e ↦ rw e (refl, refl)
    | inr e ↦ elim (Bool-cases (is_pending s.pending_gps_step (wrap_i64 (g -ℤ predicted)))) [
      | inl k ↦ rw (e, k) (refl, refl)
      | inr k ↦ rw (e, k) (refl, refl)
    ]
  ]

  discipline-IsServer :
      (fudge : ℤ) (anchor : ClockAnchor) (phase edge_us : ℤ) (s : NtpServer fl)
      → s.pps_locked ≡ true
      → IsServer s
      → IsServer (discipline fudge anchor phase edge_us s)
  unfolding discipline note_phase
  discipline-IsServer fudge anchor phase edge_us s hl h =
      let tuned = record s { freq_ppm = blend_freq s phase } in
      let keeps =
        settle_second-keeps (predicted_second tuned anchor edge_us)
          (gps_second_at_edge fudge tuned edge_us) tuned in
      let settled =
        settle_second (predicted_second tuned anchor edge_us)
          (gps_second_at_edge fudge tuned edge_us) tuned in
      let is_locked = keeps.0 ∙ hl in
      (
        sym is_locked,
        subst (λ l. l ≤ 2) (sym keeps.1) h.1,
        Synced-locked settled.1.pps_locked is_locked (record {
          unix_seconds = settled.0;
          monotonic_us =
              saturating_sub edge_us (fl.to_i64 (fl.mul (fl.of_int phase) (fl.lit (pos 1) 1)));
        }),
      )

  locked_pulse-IsServer :
      (fudge : ℤ) (anchor : ClockAnchor) (phase edge_us : ℤ) (s : NtpServer fl)
      → s.pps_locked ≡ true
      → IsServer s
      → IsServer (locked_pulse fudge anchor phase edge_us s)
  unfolding locked_pulse
  locked_pulse-IsServer fudge anchor phase edge_us s hl h =
      IsServer-if (is_outlier s phase)
        (record s { pps_glitch_count = saturating_inc s.pps_glitch_count })
        (discipline fudge anchor phase edge_us s) h
        (discipline-IsServer fudge anchor phase edge_us s hl h)

  -- A pulse that meets an anchor of a locked clock, or none.
  anchored-IsServer :
      (fudge phase edge_us : ℤ) (s : NtpServer fl) (l : Bool) (o : Option ClockAnchor)
      → (l ≡ true → s.pps_locked ≡ true)
      → IsServer s
      → IsServer (elim (if l then o else none) [
        | none ↦ try_lock fudge edge_us s
        | some anchor ↦ locked_pulse fudge anchor phase edge_us s
      ])
  anchored-IsServer fudge phase edge_us s false o hl h = try_lock-IsServer fudge edge_us s h
  anchored-IsServer fudge phase edge_us s true none hl h = try_lock-IsServer fudge edge_us s h
  anchored-IsServer fudge phase edge_us s true (some anchor) hl h =
      locked_pulse-IsServer fudge anchor phase edge_us s (hl refl) h

  -- A pulse, the first or a later one, keeps the server well formed.
  pub observe_pps_pulse-IsServer :
      (fudge : ℤ) (interval : Option ℕ) (edge_us : ℤ) (s : NtpServer fl)
      → IsServer s
      → IsServer (observe_pps_pulse fudge interval edge_us s)
  unfolding observe_pps_pulse interval_pulse
  observe_pps_pulse-IsServer fudge none edge_us s h = try_lock-IsServer fudge edge_us s h
  observe_pps_pulse-IsServer fudge (some interval) edge_us s h =
      let phase = pos interval -ℤ pos 1_000_000 in
      elim (Bool-cases (in_range interval)) [
        | inl e ↦
            rw e (anchored-IsServer fudge phase edge_us s s.pps_locked s.clock_anchor (λ k. k) h)
        | inr e ↦ rw e h
      ]

  second-stale :
      (fudge edge_us : ℤ) (s : NtpServer fl)
      → gps_time_fresh s edge_us ≡ false
      → gps_second_at_edge fudge s edge_us ≡ none
  unfolding gps_second_at_edge
  second-stale fudge edge_us s h = rw (gps_second_at_edge, h) refl

  try_lock-stale :
      (fudge edge_us : ℤ) (s : NtpServer fl)
      → gps_time_fresh s edge_us ≡ false
      → try_lock fudge edge_us s ≡ s
  unfolding try_lock
  try_lock-stale fudge edge_us s h =
      ap (λ o. (elim o as (λ _. NtpServer fl) [ none ↦ s | some u ↦ lock_anchor u edge_us s ]))
        (second-stale fudge edge_us s h)

  anchored-stale :
      (fudge phase edge_us : ℤ) (s : NtpServer fl) (l : Bool) (o : Option ClockAnchor)
      → l ≡ false
      → gps_time_fresh s edge_us ≡ false
      → (elim (if l then o else none) as (λ _. NtpServer fl) [
        | none ↦ try_lock fudge edge_us s
        | some anchor ↦ locked_pulse fudge anchor phase edge_us s
      ])
        ≡ s
  anchored-stale fudge phase edge_us s false o hl h = try_lock-stale fudge edge_us s h
  anchored-stale fudge phase edge_us s true o hl h = cc

  -- Without a fresh time of the GPS no pulse changes a server that is not locked: it neither locks
  -- nor tunes its clock.
  pub observe_pps_pulse-stale :
      (fudge : ℤ) (interval : Option ℕ) (edge_us : ℤ) (s : NtpServer fl)
      → s.pps_locked ≡ false
      → gps_time_fresh s edge_us ≡ false
      → observe_pps_pulse fudge interval edge_us s ≡ s
  unfolding observe_pps_pulse interval_pulse
  observe_pps_pulse-stale fudge none edge_us s hl h = try_lock-stale fudge edge_us s h
  observe_pps_pulse-stale fudge (some interval) edge_us s hl h =
      elim (Bool-cases (in_range interval)) [
        | inl e ↦ rw e (
            anchored-stale fudge (pos interval -ℤ pos 1_000_000) edge_us s s.pps_locked
              s.clock_anchor hl h)
        | inr e ↦ rw e refl
      ]
