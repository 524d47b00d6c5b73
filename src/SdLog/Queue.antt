-- ===== src/SdLog/Queue.antt =====
-- The bounds and the bookkeeping of the queue of log lines, src/sdlog.rs.
use rust_gps_ntp.Common.{
  ℕ, suc, ◌+◌, ◌^◌, ◌<◌, ◌≤◌, ◌≡◌, refl, List, [], ◌∷◌, ◌++◌, ltb, length, length-append,
  Bool-cases, inl, inr, arith, append-nil, append_assoc,
}
use rust_gps_ntp.Common.Words.{saturating_inc}
use rust_gps_ntp.Ntp.Bytes.{Buffer}
use rust_gps_ntp.SdLog.{LineQueue, new_queue, enqueue, drain, queue_max_bytes}

-- The uses of the queue: a line is offered, or the writer takes what is there.
pub data Use : Type 0 where
  offer : Buffer → Use
  collect : Use

-- The queue and what has come of it: the lines that were offered, those that the writer has taken,
-- and the dropped ones that it has been told of.
pub record History : Type 0 where
  pub queue : LineQueue
  pub offered : List Buffer
  pub taken : List Buffer
  pub reported : ℕ

abbrev pub before_use : History
before_use = record { queue = new_queue; offered = []; taken = []; reported = 0 }

unfoldable pub use_queue : Use → History → History
unfolding enqueue drain
use_queue (Use.offer line) h = record h {
  queue = enqueue line h.queue;
  offered = h.offered ++ (line ∷ []);
}
use_queue Use.collect h =
    let d : List Buffer × ℕ × LineQueue = drain h.queue in
    record h { queue = d.2; taken = h.taken ++ d.0; reported = h.reported + d.1 }

unfoldable pub uses : List Use → History → History
unfolding use_queue
uses [] h = h
uses (u ∷ us) h = uses us (use_queue u h)

abbrev pub total : List Buffer → ℕ
total [] = 0
total (line ∷ lines) = length line + total lines

pub total-append : (xs ys : List Buffer) → total (xs ++ ys) ≡ total xs + total ys
total-append [] ys = omega arith
total-append (x ∷ xs) ys = omega (arith, total-append xs ys)

-- The first list is the second with some members left out.
pub data Sublist : List Buffer → List Buffer → Type 0 where
  nil : Sublist [] []
  keep : {x : Buffer} {xs ys : List Buffer} → Sublist xs ys → Sublist (x ∷ xs) (x ∷ ys)
  skip : {y : Buffer} {xs ys : List Buffer} → Sublist xs ys → Sublist xs (y ∷ ys)

Sublist-add :
    {xs ys : List Buffer} (z : Buffer) → Sublist xs ys → Sublist (xs ++ (z ∷ [])) (ys ++ (z ∷ []))
Sublist-add z nil = keep nil
Sublist-add z (keep s) = keep (Sublist-add z s)
Sublist-add z (skip s) = skip (Sublist-add z s)

Sublist-miss : {xs ys : List Buffer} (z : Buffer) → Sublist xs ys → Sublist xs (ys ++ (z ∷ []))
Sublist-miss z nil = skip nil
Sublist-miss z (keep s) = keep (Sublist-miss z s)
Sublist-miss z (skip s) = skip (Sublist-miss z s)

-- The byte count is right and within its bound, every line is accounted for, and the lines that were
-- taken or wait are in the order of the offers.
abbrev pub IsKept : History → Type 0
IsKept h =
    (h.queue.bytes ≡ total h.queue.lines)
    × (h.queue.bytes ≤ queue_max_bytes)
    × (length h.taken + length h.queue.lines + h.reported + h.queue.dropped ≡ length h.offered)
    × Sublist (h.taken ++ h.queue.lines) h.offered

offer-IsKept :
    (line : Buffer) (h : History)
    → length h.offered + 1 < 2 ^ 32
    → IsKept h
    → IsKept (use_queue (Use.offer line) h)
unfolding use_queue enqueue saturating_inc
offer-IsKept line h f (a, b, c, d) =
    elim (Bool-cases (ltb queue_max_bytes (h.queue.bytes + length line))) [
      | inl full ↦
          rw full (a, b, omega (arith, length-append h.offered (line ∷ [])), Sublist-miss line d)
      | inr fits ↦ rw fits (
        omega (arith, total-append h.queue.lines (line ∷ [])),
        ground (arith, fits),
        omega (arith, length-append h.offered (line ∷ []), length-append h.queue.lines (line ∷ [])),
        rw (← append_assoc h.taken h.queue.lines (line ∷ [])) (Sublist-add line d),
      )
    ]

collect-IsKept : (h : History) → IsKept h → IsKept (use_queue Use.collect h)
unfolding use_queue drain
collect-IsKept h (a, b, c, d) = (
  refl,
  omega arith,
  omega (arith, length-append h.taken h.queue.lines),
  rw (append-nil (h.taken ++ h.queue.lines)) d,
)

offered_lem :
    (line : Buffer) (h : History) (n : ℕ)
    → length h.offered + suc n < 2 ^ 32
    → length (use_queue (Use.offer line) h).offered + n < 2 ^ 32
unfolding use_queue
offered_lem line h n f = omega (arith, length-append h.offered (line ∷ []))

collected_lem :
    (h : History) (n : ℕ)
    → length h.offered + suc n < 2 ^ 32
    → length (use_queue Use.collect h).offered + n < 2 ^ 32
unfolding use_queue
collected_lem h n f = omega arith

uses-IsKept :
    (us : List Use) (h : History)
    → length h.offered + length us < 2 ^ 32
    → IsKept h
    → IsKept (uses us h)
unfolding uses
uses-IsKept [] h f k = k
uses-IsKept (Use.offer line ∷ us) h f k =
    uses-IsKept us (use_queue (Use.offer line) h) (offered_lem line h (length us) (omega arith))
      (offer-IsKept line h (omega arith) k)
uses-IsKept (Use.collect ∷ us) h f k =
    uses-IsKept us (use_queue Use.collect h) (collected_lem h (length us) (omega arith))
      (collect-IsKept h k)

-- In a run of fewer than 2^32 uses of the queue: its byte count is the number of bytes that wait and
-- never exceeds 16 KiB; every line that was offered has been taken by the writer, waits, or is
-- counted as dropped, either reported or to be reported; and the lines that were taken and that
-- wait are in the order in which they were offered.
pub uses-before_use-IsKept : (us : List Use) → length us < 2 ^ 32 → IsKept (uses us before_use)
unfolding new_queue
uses-before_use-IsKept us f = uses-IsKept us before_use (omega arith) (refl, omega arith, refl, nil)
