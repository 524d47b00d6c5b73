-- ===== src/Protection/Limiter/Spacing.antt =====
-- Whole runs of the limiter: what a sequence of requests is answered, and how far apart the accepted
-- requests of one client are.
use rust_gps_ntp.Common.{
  ℕ, zero, suc, ◌+◌, ◌≤◌, ◌≡◌, refl, sym, ap, Bool, true, false, Option, none, is_none, some, List,
  [], ◌∷◌, ◌||◌, ◌&&◌, arith, length, replicate, ◌==◌, if◌then◌else◌,
}
use rust_gps_ntp.Common.Int.{ℤ, pos_part}
use rust_gps_ntp.Common.Words.{saturating_sub}
use rust_gps_ntp.Protection.Limiter.{Table, rate_table_size, new_limiter, check, too_fast}
use rust_gps_ntp.Protection.Limiter.Ideal.{
  last_seen, may_pass, free_slots, missing, IsIdealStep, check-IsIdealStep,
}

-- Requests, each an address and the time at which it is checked.
abbrev pub Requests : Type 0
Requests = List (ℕ × ℤ)

-- The verdicts that the firmware gives, one after another.
unfoldable pub check_all : Requests → Table → List Bool
check_all [] t = []
check_all ((addr, now) ∷ rs) t = (check addr now t).0 ∷ check_all rs (check addr now t).1

abbrev pub note : ℕ → ℤ → (ℕ → Option ℤ) → ℕ → Option ℤ
note addr now seen q =
    if q == addr then (if may_pass (seen addr) now then some now else seen addr) else seen q

-- The verdicts of a limiter with unbounded memory.
unfoldable pub ideal_all : Requests → (ℕ → Option ℤ) → List Bool
ideal_all [] seen = []
ideal_all ((addr, now) ∷ rs) seen = may_pass (seen addr) now ∷ ideal_all rs (note addr now seen)

unfoldable pub contains : ℕ → List ℕ → Bool
contains a [] = false
contains a (c ∷ cs) = (c == a) || contains a cs

abbrev pub AllFrom : List ℕ → Requests → Type 0
AllFrom clients [] = Unit
AllFrom clients ((addr, now) ∷ rs) = (contains addr clients ≡ true) × AllFrom clients rs

module _ (addr : ℕ) (now : ℤ) (t : Table) (res : Bool × Table)
    (s : IsIdealStep addr now t res) where
  still_seen : (c : ℕ) → is_none (last_seen c res.1) ≡ true → is_none (last_seen c t) ≡ true
  unfolding may_pass
  still_seen c h = ground (arith, s.seen c, s.verdict)

  now_seen : is_none (last_seen addr res.1) ≡ false
  unfolding may_pass
  now_seen = ground (arith, s.seen addr, s.verdict)

  missing_mono : (cs : List ℕ) → missing cs res.1 ≤ missing cs t
  unfolding missing
  missing_mono [] = omega arith
  missing_mono (c ∷ cs) = ground (arith, still_seen c, missing_mono cs)

  missing-step :
      (cs : List ℕ)
      → contains addr cs ≡ true
      → missing cs res.1 + (if is_none (last_seen addr t) then 1 else 0) ≤ missing cs t
  unfolding missing contains
  missing-step [] h = absurd (ground arith)
  missing-step (c ∷ cs) h = ground (arith, now_seen, still_seen c, missing_mono cs, missing-step cs)

missing-known :
    (addr : ℕ) (t : Table) (cs : List ℕ)
    → contains addr cs ≡ true
    → (if is_none (last_seen addr t) then 1 else 0) ≤ missing cs t
unfolding missing contains
missing-known addr t [] h = absurd (ground arith)
missing-known addr t (c ∷ cs) h = ground (arith, missing-known addr t cs)

check_all-eq-ideal_all :
    (clients : List ℕ) (rs : Requests) (t : Table) (seen : ℕ → Option ℤ)
    → ((q : ℕ) → seen q ≡ last_seen q t)
    → AllFrom clients rs
    → missing clients t ≤ free_slots t
    → check_all rs t ≡ ideal_all rs seen
unfolding check_all ideal_all
check_all-eq-ideal_all clients [] t seen same from room = refl
check_all-eq-ideal_all clients ((addr, now) ∷ rs) t seen same (here, from) room =
    let s = check-IsIdealStep addr now t (omega (arith, missing-known addr t clients here)) in
    let fewer = missing-step addr now t (check addr now t) s clients here in
    let rest =
      check_all-eq-ideal_all clients rs (check addr now t).1 (note addr now seen)
        (λ q. ground (arith, s.seen q, s.verdict, same addr, same q)) from
        (omega (arith, s.slots)) in
    rw (rest, s.verdict, same addr)

missing-new : (cs : List ℕ) (n : ℕ) → missing cs (replicate n none) ≤ length cs
unfolding missing last_seen
missing-new [] n = omega arith
missing-new (c ∷ cs) n = ground (arith, missing-new cs n)

free_slots-new : (n : ℕ) → free_slots (replicate n none) ≡ n
unfolding free_slots
free_slots-new zero = refl
free_slots-new (suc n) = ap suc (free_slots-new n)

last_seen-new : (n q : ℕ) → last_seen q (replicate n none) ≡ none
unfolding last_seen
last_seen-new zero q = refl
last_seen-new (suc n) q = last_seen-new n q

-- From the empty table, requests from at most 32 clients are answered as by a limiter that forgets
-- no client.
pub check_all_ideal :
    (clients : List ℕ) (rs : Requests)
    → length clients ≤ rate_table_size
    → AllFrom clients rs
    → check_all rs new_limiter ≡ ideal_all rs (λ q. none)
unfolding new_limiter
check_all_ideal clients rs few from =
    check_all-eq-ideal_all clients rs new_limiter (λ q. none)
      (λ q. sym (last_seen-new rate_table_size q)) from
      (omega (arith, missing-new clients rate_table_size, free_slots-new rate_table_size))

-- The times at which the requests of one client were accepted.
unfoldable pub accepted_times : ℕ → Requests → List Bool → List ℤ
accepted_times q ((addr, now) ∷ rs) (v ∷ vs) =
    if addr == q && v then now ∷ accepted_times q rs vs else accepted_times q rs vs
accepted_times q _ _ = []

-- The time follows the last accepted one by the interval at least.
abbrev pub Follows : Option ℤ → ℤ → Type 0
Follows none now = Unit
Follows (some last) now = 2_000_000 ≤ pos_part (saturating_sub now last)

abbrev pub Spaced : Option ℤ → List ℤ → Type 0
Spaced last [] = Unit
Spaced last (now ∷ later) = Follows last now × Spaced (some now) later

may_pass-Follows : (last : Option ℤ) (now : ℤ) → may_pass last now ≡ true → Follows last now
unfolding may_pass too_fast
may_pass-Follows none now h = tt
may_pass-Follows (some last) now h = ground arith

note_lem :
    (addr q : ℕ) (now : ℤ) (seen : ℕ → Option ℤ)
    → note addr now seen q ≡ (if addr == q && may_pass (seen addr) now then some now else seen q)
note_lem addr q now seen = ground arith

Spaced-if :
    (b : Bool) (last : Option ℤ) (now : ℤ) (later : List ℤ)
    → (b ≡ true → Follows last now)
    → Spaced (if b then some now else last) later
    → Spaced last (if b then now ∷ later else later)
Spaced-if true last now later follows s = (follows refl, s)
Spaced-if false last now later follows s = s

ideal_all-Spaced :
    (q : ℕ) (rs : Requests) (seen : ℕ → Option ℤ)
    → Spaced (seen q) (accepted_times q rs (ideal_all rs seen))
unfolding ideal_all accepted_times
ideal_all-Spaced q [] seen = tt
ideal_all-Spaced q ((addr, now) ∷ rs) seen =
    Spaced-if (addr == q && may_pass (seen addr) now) (seen q) now
      (accepted_times q rs (ideal_all rs (note addr now seen)))
      (λ passed. may_pass-Follows (seen q) now (ground arith))
      (rw (note_lem addr q now seen) at (ideal_all-Spaced q rs (note addr now seen)))

-- Among at most 32 clients, whatever the order of their requests, two accepted requests of one
-- client are at least two seconds apart.
pub check_all-Spaced :
    (clients : List ℕ) (rs : Requests) (q : ℕ)
    → length clients ≤ rate_table_size
    → AllFrom clients rs
    → Spaced none (accepted_times q rs (check_all rs new_limiter))
check_all-Spaced clients rs q few from =
    rw (check_all_ideal clients rs few from) (ideal_all-Spaced q rs (λ q. none))
