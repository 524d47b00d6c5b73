-- ===== src/Protection/Limiter/Ideal.antt =====
-- The limiter against an ideal one that forgets no client: while the table has room, the two agree.
use rust_gps_ntp.Common.{
  ℕ, suc, ◌+◌, ◌≤◌, ◌<◌, ◌≡◌, refl, sym, ap, Bool-cases, Bool, true, false, Option, none, some,
  List, [], ◌∷◌, arith, set, ◌==◌, if◌then◌else◌, Option-cases, inl, inr, ◌≢◌, is_none,
}
use rust_gps_ntp.Common.Int.{ℤ}
use rust_gps_ntp.Protection.Limiter.{
  ClientRecord, Table, check_known, free_slot, slot_for_new, check, skip, too_fast, suc_option,
}

-- When the client was last accepted, as the table has it.
unfoldable pub last_seen : ℕ → Table → Option ℤ
last_seen addr [] = none
last_seen addr (none ∷ t) = last_seen addr t
last_seen addr (some r ∷ t) = if r.addr == addr then some r.last_us else last_seen addr t

-- The rule that the limiter promises, for one client.
unfoldable pub may_pass : Option ℤ → ℤ → Bool
may_pass none now_us = true
may_pass (some last) now_us = if too_fast now_us last then false else true

unfoldable pub free_slots : Table → ℕ
free_slots [] = 0
free_slots (none ∷ t) = suc (free_slots t)
free_slots (some r ∷ t) = free_slots t

-- How many of the listed clients the table does not hold.
unfoldable pub missing : List ℕ → Table → ℕ
missing [] t = 0
missing (c ∷ cs) t = (if is_none (last_seen c t) then 1 else 0) + missing cs t

abbrev pub KnownSpec : ℕ → ℤ → Table → Option (Bool × Table) → Type 0
KnownSpec addr now t none = (last_seen addr t ≡ none)
KnownSpec addr now t (some (accepted, t')) =
    (may_pass (last_seen addr t) now ≡ accepted)
    × (last_seen addr t ≢ none)
    × (free_slots t' ≡ free_slots t)
    × ((q : ℕ)
        → last_seen q t' ≡ (
            if q == addr then (if accepted then some now else last_seen addr t) else last_seen q t))

skip-none-KnownSpec :
    (addr : ℕ) (now : ℤ) (t : Table) (known : Option (Bool × Table))
    → KnownSpec addr now t known
    → KnownSpec addr now (none ∷ t) (skip none known)
unfolding last_seen free_slots
skip-none-KnownSpec addr now t none s = s
skip-none-KnownSpec addr now t (some (accepted, t')) (verdict, old, free, seen) =
    (verdict, old, ap suc free, seen)

skip-some-KnownSpec :
    (addr : ℕ) (now : ℤ) (r : ClientRecord) (t : Table) (known : Option (Bool × Table))
    → (r.addr == addr) ≡ false
    → KnownSpec addr now t known
    → KnownSpec addr now (some r ∷ t) (skip (some r) known)
unfolding last_seen free_slots
skip-some-KnownSpec addr now r t none e s = rw e s
skip-some-KnownSpec addr now r t (some (accepted, t')) e (verdict, old, free, seen) =
    (rw e verdict, rw e old, free, λ q. ground (arith, seen q))

pub check_known-KnownSpec :
    (addr : ℕ) (now : ℤ) (t : Table) → KnownSpec addr now t (check_known addr now t)
unfolding check_known last_seen may_pass free_slots
check_known-KnownSpec addr now [] = refl
check_known-KnownSpec addr now (none ∷ t) =
    skip-none-KnownSpec addr now t (check_known addr now t) (check_known-KnownSpec addr now t)
check_known-KnownSpec addr now (some r ∷ t) = elim (Bool-cases (r.addr == addr)) [
  | inr other ↦ rw other (
      skip-some-KnownSpec addr now r t (check_known addr now t) other
        (check_known-KnownSpec addr now t))
  | inl same ↦ elim (Bool-cases (too_fast now r.last_us)) [
    | inl fast ↦ rw (same, fast) (ground arith, ground arith, refl, λ q. ground arith)
    | inr slow ↦ rw (same, slow) (ground arith, ground arith, refl, λ q. ground arith)
  ]
]

abbrev InsertSpec : ℕ → ℤ → Table → Option ℕ → Type 0
InsertSpec addr now t none = free_slots t ≡ 0
InsertSpec addr now t (some i) =
    let t' = set t i (some (record { addr = addr; last_us = now })) in
    (suc (free_slots t') ≡ free_slots t)
    × ((q : ℕ) → last_seen q t' ≡ (if q == addr then some now else last_seen q t))

skip_used-InsertSpec :
    (addr : ℕ) (now : ℤ) (r : ClientRecord) (t : Table) (slot : Option ℕ)
    → (r.addr == addr) ≡ false
    → InsertSpec addr now t slot
    → InsertSpec addr now (some r ∷ t) (suc_option slot)
unfolding last_seen free_slots
skip_used-InsertSpec addr now r t none e s = s
skip_used-InsertSpec addr now r t (some i) e (free, seen) = (free, λ q. ground (arith, seen q))

free_slot-InsertSpec :
    (addr : ℕ) (now : ℤ) (t : Table) → last_seen addr t ≡ none → InsertSpec addr now t (free_slot t)
unfolding free_slot last_seen free_slots
free_slot-InsertSpec addr now [] absent = refl
free_slot-InsertSpec addr now (none ∷ t) absent = (refl, λ q. ground arith)
free_slot-InsertSpec addr now (some r ∷ t) absent =
    skip_used-InsertSpec addr now r t (free_slot t) (ground arith)
      (free_slot-InsertSpec addr now t (ground arith))

-- What one call does to the table, as its clients see it.
pub record IsIdealStep (addr : ℕ) (now : ℤ) (t : Table) (result : Bool × Table) : Type 0 where
  pub verdict : result.0 ≡ may_pass (last_seen addr t) now
  pub seen :
      (q : ℕ)
      → last_seen q result.1
        ≡ (if q == addr then (if result.0 then some now else last_seen addr t) else last_seen q t)
  pub slots : free_slots t ≤ free_slots result.1 + (if is_none (last_seen addr t) then 1 else 0)

known-IsIdealStep :
    (addr : ℕ) (now : ℤ) (t : Table) (res : Bool × Table)
    → KnownSpec addr now t (some res)
    → IsIdealStep addr now t res
known-IsIdealStep addr now t (accepted, t') (verdict, old, free, seen) = record {
  verdict = sym verdict;
  seen = seen;
  slots = omega arith;
}

new-IsIdealStep :
    (addr : ℕ) (now : ℤ) (t : Table)
    → last_seen addr t ≡ none
    → 0 < free_slots t
    → IsIdealStep addr now t
        (true, set t (slot_for_new t) (some (record { addr = addr; last_us = now })))
unfolding slot_for_new may_pass
new-IsIdealStep addr now t absent room =
    let inserted = free_slot-InsertSpec addr now t absent in
    elim (Option-cases (free_slot t)) [
      | inl e ↦ absurd (omega (arith, rw e at inserted))
      | inr (i, e) ↦
          let (fewer, seen) = rw e at inserted in
          rw (e, slot_for_new)
            (record { verdict = rw absent; seen = seen; slots = rw absent (omega arith) })
    ]

-- While the client is known or a slot is free, one call serves the request exactly when the client
-- is new or the interval since its last accepted request is over, notes the time if it does, changes
-- nothing that the table says of any other client, and takes a slot only for a new client.
pub check-IsIdealStep :
    (addr : ℕ) (now : ℤ) (t : Table)
    → (if is_none (last_seen addr t) then 1 else 0) ≤ free_slots t
    → IsIdealStep addr now t (check addr now t)
unfolding check
check-IsIdealStep addr now t room =
    let known = check_known-KnownSpec addr now t in
    elim (Option-cases (check_known addr now t)) [
      | inl e ↦
          let absent : last_seen addr t ≡ none = rw e at known in
          rw (e, check) (new-IsIdealStep addr now t absent (rw absent at room))
      | inr (res, e) ↦ rw (e, check) (known-IsIdealStep addr now t res (rw e at known))
    ]
