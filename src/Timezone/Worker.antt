-- ===== src/Timezone/Worker.antt =====
-- The lookups in flight, src/timezone.rs.
use rust_gps_ntp.Common.{
  ℕ, ◌+◌, ◌≤◌, ◌≡◌, refl, true, false, Option, none, some, List, [], ◌∷◌, ◌++◌, length,
  length-append, ◌⊎◌, if◌then◌else◌, Bool-cases, inl, inr, arith,
}
use rust_gps_ntp.Timezone.{
  TimezoneWorker, Lookup, new_worker, try_request, poll_worker, received, thread_takes,
  free_to_take, taken, thread_sends, sent,
}

module _ {Coords : Type 0} where
  abbrev pub of_option : Option Coords → ℕ
  of_option none = 0
  of_option (some _) = 1

  -- The lookups that are queued, worked on, or waiting to be read.
  abbrev pub in_flight : TimezoneWorker Coords → ℕ
  in_flight w = length w.requests + of_option w.busy + length w.results

  -- The steps of the main loop and of the thread, in any order; the thread may end at any time.
  pub data Step (w : TimezoneWorker Coords) : TimezoneWorker Coords → Type 0 where
    ask : (coords : Coords) → Step w (try_request coords w).1
    look : Step w (poll_worker w).1
    takes : Step w (thread_takes w)
    sends : (fetch : Coords → Lookup) → Step w (thread_sends fetch w)
    ends : Step w (record w { closed = true })

  pub data Reach : TimezoneWorker Coords → Type 0 where
    start : Reach new_worker
    next : {v w : TimezoneWorker Coords} → Reach v → Step v w → Reach w

  abbrev pub IsSingle : TimezoneWorker Coords → Type 0
  IsSingle w =
      (in_flight w ≤ 1) × ((w.closed ≡ true) ⊎ (in_flight w ≡ (if w.pending then 1 else 0)))

  ask-IsSingle :
      (coords : Coords) (w : TimezoneWorker Coords) → IsSingle w → IsSingle (try_request coords w).1
  unfolding try_request
  ask-IsSingle coords w h = elim (Bool-cases w.pending) [
    | inl e ↦ rw e (rw e at h)
    | inr e ↦ elim (Bool-cases w.closed) [
      | inl k ↦ rw (e, k) (rw (e, k) at h)
      | inr k ↦ rw (e, k) (asked w.requests w.busy w.results (rw (e, k) at h))
    ]
  ]
    where
      asked :
          (requests : List Coords) (busy : Option Coords) (results : List Lookup)
          → (length requests + of_option busy + length results ≤ 1)
            × ((false ≡ true) ⊎ (length requests + of_option busy + length results ≡ 0))
          → (length (requests ++ (coords ∷ [])) + of_option busy + length results ≤ 1)
            × ((false ≡ true)
                ⊎ (length (requests ++ (coords ∷ [])) + of_option busy + length results ≡ 1))
      asked requests busy results h = ground (arith, h, length-append requests (coords ∷ []))

  look-IsSingle :
      (results : List Lookup) (w : TimezoneWorker Coords)
      → w.results ≡ results
      → IsSingle w
      → IsSingle (received results w).1
  look-IsSingle [] w e h = ground (arith, h)
  look-IsSingle (r ∷ rest) w e h = ground (arith, h, e)

  taken-IsSingle :
      (requests : List Coords) (w : TimezoneWorker Coords)
      → w.requests ≡ requests
      → w.busy ≡ none
      → IsSingle w
      → IsSingle (taken requests w)
  taken-IsSingle [] w e k h = h
  taken-IsSingle (c ∷ rest) w e k h = ground (arith, h, e, k)

  takes-IsSingle :
      (busy : Option Coords) (w : TimezoneWorker Coords)
      → w.busy ≡ busy
      → IsSingle w
      → IsSingle (free_to_take busy w)
  takes-IsSingle none w e h = taken-IsSingle w.requests w refl e h
  takes-IsSingle (some c) w e h = h

  sends-IsSingle :
      (busy : Option Coords) (fetch : Coords → Lookup) (w : TimezoneWorker Coords)
      → w.busy ≡ busy
      → IsSingle w
      → IsSingle (sent busy fetch w)
  sends-IsSingle none fetch w e h = h
  sends-IsSingle (some c) fetch w e h = ground (arith, h, e, length-append w.results (fetch c ∷ []))

  Step-IsSingle : {v w : TimezoneWorker Coords} → Step v w → IsSingle v → IsSingle w
  unfolding poll_worker thread_takes thread_sends
  Step-IsSingle {v} (ask coords) h = ask-IsSingle coords v h
  Step-IsSingle {v} look h = look-IsSingle v.results v refl h
  Step-IsSingle {v} takes h = takes-IsSingle v.busy v refl h
  Step-IsSingle {v} (sends fetch) h = sends-IsSingle v.busy fetch v refl h
  Step-IsSingle {v} ends h = (h.0, inl refl)

  -- However the main loop and the thread take their steps, at most one lookup is queued, worked on or
  -- waiting to be read; while the thread lives there is one exactly if the worker says that a
  -- request is pending.
  pub Reach-IsSingle : {w : TimezoneWorker Coords} → Reach w → IsSingle w
  unfolding new_worker
  Reach-IsSingle start = ground arith
  Reach-IsSingle (next r st) = Step-IsSingle st (Reach-IsSingle r)
