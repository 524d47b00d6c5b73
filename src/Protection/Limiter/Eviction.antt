-- ===== src/Protection/Limiter/Eviction.antt =====
-- What holds of the limiter for any number of clients: whom it turns away, and whom it forgets.
use rust_gps_ntp.Common.{
  ℕ, zero, suc, ◌+◌, ◌≡◌, refl, sym, subst, ◌∙◌, ap, All, ◌⊎◌, Bool, true, Option, none, some, [],
  ◌∷◌, arith, set, length, length-set, get_elem?, Bool-cases, Option-cases, inl, inr, ◌≢◌,
}
use rust_gps_ntp.Common.Int.{ℤ, ltb_ℤ, ◌≤ℤ◌}
use rust_gps_ntp.Protection.Limiter.{
  ClientRecord, Table, check_known, free_slot, oldest_from, oldest_slot, slot_key, slot_for_new,
  check,
}
use rust_gps_ntp.Protection.Limiter.Ideal.{last_seen, may_pass, check_known-KnownSpec, KnownSpec}

known-verdict :
    (addr : ℕ) (now : ℤ) (t : Table) (res : Bool × Table)
    → KnownSpec addr now t (some res)
    → res.0 ≡ may_pass (last_seen addr t) now
known-verdict addr now t (accepted, t') s = sym s.0

-- For any number of clients: a request is turned away exactly when the table holds its client and
-- the interval since the client's last accepted request is not over.
pub check-eq-may_pass :
    (addr : ℕ) (now : ℤ) (t : Table) → (check addr now t).0 ≡ may_pass (last_seen addr t) now
unfolding check may_pass
check-eq-may_pass addr now t =
    let known = check_known-KnownSpec addr now t in
    elim (Option-cases (check_known addr now t)) [
      | inl e ↦
          let absent : last_seen addr t ≡ none = rw e at known in rw (e, check, absent, may_pass)
      | inr (res, e) ↦ rw (e, check) (known-verdict addr now t res (rw e at known))
    ]

check_known-length :
    (addr : ℕ) (now : ℤ) (t : Table) (res : Bool × Table)
    → check_known addr now t ≡ some res
    → length res.1 ≡ length t
unfolding check_known
check_known-length addr now [] res h = cc
check_known-length addr now (none ∷ t) res h = elim (Option-cases (check_known addr now t)) [
  | inl e ↦ ground arith
  | inr (found, e) ↦ ground (arith, check_known-length addr now t found e)
]
check_known-length addr now (some r ∷ t) res h = elim (Option-cases (check_known addr now t)) [
  | inl e ↦ ground arith
  | inr (found, e) ↦ ground (arith, check_known-length addr now t found e)
]

-- The table never grows or shrinks.
pub check-length : (addr : ℕ) (now : ℤ) (t : Table) → length (check addr now t).1 ≡ length t
unfolding check
check-length addr now t = elim (Option-cases (check_known addr now t)) [
  | inl e ↦ rw (e, check) (length-set t (slot_for_new t) _)
  | inr (res, e) ↦ rw (e, check) (check_known-length addr now t res e)
]

-- No client was accepted before the given time.
abbrev pub NoneBelow : ℤ → Table → Type 0
NoneBelow least t = All (λ e. least ≤ℤ slot_key e) t

-- The slot that `oldest_from` answers, with its key, which no later slot's key is below.
record IsOldest (i best : ℕ) (key : ℤ) (t : Table) (j : ℕ) : Type 0 where
  least : ℤ
  found :
      ((j ≡ best) × (least ≡ key))
      ⊎ ((n : ℕ) × (e : Option ClientRecord) × (j ≡ i + n)
          × (get_elem? t n ≡ some e)
          × (least ≡ slot_key e))
  below : least ≤ℤ key
  least_of : NoneBelow least t

oldest_from-IsOldest :
    (i best : ℕ) (key : ℤ) (t : Table) → IsOldest i best key t (oldest_from i best key t)
unfolding oldest_from
oldest_from-IsOldest i best key [] = record {
  least = key;
  found = inl (refl, refl);
  below = omega arith;
  least_of = tt;
}
oldest_from-IsOldest i best key (e ∷ t) = elim (Bool-cases (ltb_ℤ (slot_key e) key)) [
  | inl less ↦
      let o = oldest_from-IsOldest (suc i) i (slot_key e) t in
      let least_below : o.least ≤ℤ key = ground arith in
      rw (less, oldest_from)
        (record {
          least = o.least;
          found = elim o.found [
            | inl (here, k) ↦ inr (0, e, omega arith, refl, k)
            | inr (n, x, at_n, has, k) ↦ inr (suc n, x, omega arith, has, k)
          ];
          below = least_below;
          least_of = (o.below, o.least_of);
        })
  | inr more ↦
      let o = oldest_from-IsOldest (suc i) best key t in
      let least_below : o.least ≤ℤ slot_key e = ground arith in
      rw (more, oldest_from)
        (record {
          least = o.least;
          found = elim o.found [
            | inl (here, k) ↦ inl (here, k)
            | inr (n, x, at_n, has, k) ↦ inr (suc n, x, omega arith, has, k)
          ];
          below = o.below;
          least_of = (least_below, o.least_of);
        })
]

full-get :
    (t : Table) (i : ℕ) (e : Option ClientRecord)
    → free_slot t ≡ none
    → get_elem? t i ≡ some e
    → (r : ClientRecord) × (e ≡ some r)
unfolding free_slot
full-get [] i e full has = cc
full-get (none ∷ t) i e full has = absurd (ground arith)
full-get (some r ∷ t) zero e full has = (r, ground arith)
full-get (some r ∷ t) (suc i) e full has = full-get t i e (ground arith) has

pub record EvictsOldest (addr : ℕ) (now : ℤ) (t : Table) : Type 0 where
  pub slot : ℕ
  pub victim : ClientRecord
  pub held : get_elem? t slot ≡ some (some victim)
  pub oldest : NoneBelow victim.last_us t
  pub replaced :
      check addr now t ≡ (true, set t slot (some (record { addr = addr; last_us = now })))

oldest_slot-IsOldest :
    (e : Option ClientRecord) (t : Table)
    → (x : Option ClientRecord) × (get_elem? (e ∷ t) (oldest_slot (e ∷ t)) ≡ some x)
      × NoneBelow (slot_key x) (e ∷ t)
unfolding oldest_slot
oldest_slot-IsOldest e t =
    let o = oldest_from-IsOldest 1 0 (slot_key e) t in
    let all : NoneBelow o.least (e ∷ t) = (o.below, o.least_of) in
    elim o.found [
      | inl (here, k) ↦ (e, rw here refl, subst (λ m. NoneBelow m (e ∷ t)) k all)
      | inr (n, x, at_n, has, k) ↦
          (x, rw at_n (ground arith), subst (λ m. NoneBelow m (e ∷ t)) k all)
    ]

full-EvictsOldest :
    (addr : ℕ) (now : ℤ) (t : Table)
    → t ≢ []
    → free_slot t ≡ none
    → check_known addr now t ≡ none
    → EvictsOldest addr now t
unfolding check slot_for_new
full-EvictsOldest addr now [] some_slot full new = absurd (some_slot refl)
full-EvictsOldest addr now (e ∷ t) some_slot full new =
    let (x, has, least) = oldest_slot-IsOldest e t in
    let (r, is_r) = full-get (e ∷ t) (oldest_slot (e ∷ t)) x full has in
    record {
      slot = oldest_slot (e ∷ t);
      victim = r;
      held = has ∙ ap some is_r;
      oldest = subst (λ y. NoneBelow (slot_key y) (e ∷ t)) is_r least;
      replaced = rw (new, check, full, slot_for_new);
    }

known-seen :
    (addr : ℕ) (now : ℤ) (t : Table) (res : Bool × Table)
    → KnownSpec addr now t (some res)
    → last_seen addr t ≢ none
known-seen addr now t (accepted, t') s = s.1

-- A new client whose request meets a table with no free slot is served, and takes the slot of a
-- client whose last accepted request is the oldest in the table; no other slot changes.
pub check-EvictsOldest :
    (addr : ℕ) (now : ℤ) (t : Table)
    → t ≢ []
    → free_slot t ≡ none
    → last_seen addr t ≡ none
    → EvictsOldest addr now t
check-EvictsOldest addr now t some_slot full new =
    let known = check_known-KnownSpec addr now t in
    elim (Option-cases (check_known addr now t)) [
      | inl e ↦ full-EvictsOldest addr now t some_slot full e
      | inr (res, e) ↦ absurd (known-seen addr now t res (rw e at known) new)
    ]
