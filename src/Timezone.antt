-- ===== src/Timezone.antt =====
-- Time zone lookups, src/timezone.rs: the worker that holds at most one request, and the reader of a
-- field of its answers. A request and a result pass through a channel each.
pub mod Worker
pub mod Fetch
pub mod Cache
use rust_gps_ntp.Common.{
  ℕ, zero, suc, Bool, true, false, Option, none, some, List, [], ◌∷◌, ◌++◌, ◌==◌, length, drop,
  if◌then◌else◌, ◌>>=◌, ◌>>◌, ensure,
}
use rust_gps_ntp.Protection.Cidr.{Text, split_once, trim_start}
use rust_gps_ntp.Gps.{starts_with}

abbrev pub lookup_retry_us : ℕ
lookup_retry_us = 300_000_000

abbrev pub lookup_refresh_us : ℕ
lookup_refresh_us = 21_600_000_000

unfoldable pub lookup_interval_us : Bool → ℕ
lookup_interval_us tz_initialized = if tz_initialized then lookup_refresh_us else lookup_retry_us

-- What a lookup comes to: a name, an answer without one, or an error.
pub data Lookup : Type 0 where
  found : Text → Lookup
  nameless : Lookup
  failed : Lookup

-- `Coords` are the two coordinates. `closed` says that the thread has ended, with both of its ends of
-- the channels; `busy` is the request that the thread is working on.
pub record TimezoneWorker (Coords : Type 0) : Type 0 where
  pub requests : List Coords
  pub busy : Option Coords
  pub results : List Lookup
  pub pending : Bool
  pub closed : Bool

module _ {Coords : Type 0} where
  unfoldable pub new_worker : TimezoneWorker Coords
  new_worker = record { requests = []; busy = none; results = []; pending = false; closed = false }

  -- Whether the request is queued.
  unfoldable pub try_request : Coords → TimezoneWorker Coords → Bool × TimezoneWorker Coords
  try_request coords w =
      if w.pending
      then (false, w)
      else if w.closed
      then (false, w)
      else (true, record w { requests = w.requests ++ (coords ∷ []); pending = true })

  -- `try_recv` gives what is in the channel before it says that the other end is gone.
  abbrev pub received : List Lookup → TimezoneWorker Coords → Option Lookup × TimezoneWorker Coords
  received (result ∷ rest) w = (some result, record w { results = rest; pending = false })
  received [] w = if w.closed then (some failed, record w { pending = false }) else (none, w)

  unfoldable pub poll_worker : TimezoneWorker Coords → Option Lookup × TimezoneWorker Coords
  poll_worker w = received w.results w

  -- The thread's loop: it takes a request, if there is one, and later sends the result.
  abbrev pub taken : List Coords → TimezoneWorker Coords → TimezoneWorker Coords
  taken [] w = w
  taken (coords ∷ rest) w = record w { requests = rest; busy = some coords }

  abbrev pub free_to_take : Option Coords → TimezoneWorker Coords → TimezoneWorker Coords
  free_to_take none w = taken w.requests w
  free_to_take (some _) w = w

  unfoldable pub thread_takes : TimezoneWorker Coords → TimezoneWorker Coords
  thread_takes w = free_to_take w.busy w

  abbrev pub sent :
      Option Coords → (Coords → Lookup) → TimezoneWorker Coords → TimezoneWorker Coords
  sent none fetch w = w
  sent (some coords) fetch w = record w { busy = none; results = w.results ++ (fetch coords ∷ []) }

  unfoldable pub thread_sends : (Coords → Lookup) → TimezoneWorker Coords → TimezoneWorker Coords
  thread_sends fetch w = sent w.busy fetch w

-- `find` of a text in a text: what follows its first occurrence.
unfoldable pub after_first : Text → Text → Option Text
after_first needle [] = if starts_with needle [] then some [] else none
after_first needle (c ∷ s) =
    let rest = after_first needle s in
    if starts_with needle (c ∷ s) then some (drop (length needle) (c ∷ s)) else rest

abbrev pub quote : ℕ
quote = 34

-- The quoted text that a text starts with.
abbrev pub quoted : Text → Option Text
quoted [] = none
quoted (c ∷ s) = do ensure (c == quote); (value, _) ← split_once quote s; some value

unfoldable pub extract_json_string_field : Text → Text → Option Text
unfolding after_first split_once trim_start
extract_json_string_field json key = do
  after_key ← after_first (quote ∷ (key ++ (quote ∷ []))) json
  (_, value) ← split_once b':' after_key
  quoted (trim_start value)
