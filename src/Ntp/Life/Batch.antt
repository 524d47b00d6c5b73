-- ===== src/Ntp/Life/Batch.antt =====
-- A whole `poll` of src/ntp/mod.rs: what it sends, and what it leaves of the clock.
use rust_gps_ntp.Common.{
  ℕ, suc, ◌≤◌, ◌≡◌, refl, ◌∙◌, Bool, true, false, Option, none, some, List, [], ◌∷◌, ◌==◌,
  if◌then◌else◌, length, All, arith,
}
use rust_gps_ntp.Ntp.Bytes.{Buffer}
use rust_gps_ntp.Ntp.Float.{Floats}
use rust_gps_ntp.Ntp.Life.Clock.{clock_of, handle-clock}
use rust_gps_ntp.Ntp.Poll.{Received, datagram, would_block, failed, handle, poll}
use rust_gps_ntp.Ntp.Poll.Replies.{Quiet, is_request, handle-Quiet}
use rust_gps_ntp.Ntp.Server.{NtpServer}

-- The datagrams that the socket gives before it has no more or fails.
abbrev pub datagrams : List Received → ℕ
datagrams [] = 0
datagrams (would_block ∷ rest) = 0
datagrams (failed ∷ rest) = 0
datagrams (datagram r send_ok req peer ∷ rest) = suc (datagrams rest)

module _ {fl : Floats} where
  -- What a poll from a server may leave, within a number of datagrams.
  abbrev IsBatch : NtpServer fl → ℕ → NtpServer fl × List Buffer × Bool → Type 0
  IsBatch s n (after, sent, ok) =
      (clock_of after ≡ clock_of s) × All (λ resp. is_request resp ≡ false) sent × (length sent ≤ n)

  -- One pass put before a batch.
  answered-IsBatch :
      (s after : NtpServer fl) (n : ℕ) (resp : Option Buffer)
      (x : NtpServer fl × List Buffer × Bool)
      → clock_of after ≡ clock_of s
      → Quiet resp
      → IsBatch after n x
      → IsBatch s
          (suc n)
          (x.0, (elim resp as (λ _. List Buffer) [ none ↦ x.1 | some r ↦ r ∷ x.1 ]), x.2)
  answered-IsBatch s after n none (t, sent, ok) same quiet (clock, all, few) =
      (clock ∙ same, all, omega arith)
  answered-IsBatch s after n (some resp) (t, sent, ok) same quiet (clock, all, few) =
      (clock ∙ same, (quiet, all), omega arith)

  IsBatch-if :
      (s : NtpServer fl) (n : ℕ) (b : Bool) (x y : NtpServer fl × List Buffer × Bool)
      → IsBatch s n x
      → IsBatch s n y
      → IsBatch s n (if b then x else y)
  IsBatch-if s n true x y h k = h
  IsBatch-if s n false x y h k = k

  more-IsBatch :
      (s : NtpServer fl) (n : ℕ) (x : NtpServer fl × List Buffer × Bool)
      → IsBatch s n x
      → IsBatch s (suc n) x
  more-IsBatch s n (t, sent, ok) (clock, all, few) = (clock, all, omega arith)

  poll-IsBatch :
      (gps_fix : Bool) (events : List Received) (s : NtpServer fl)
      → IsBatch s (datagrams events) (poll gps_fix events s)
  unfolding poll
  poll-IsBatch gps_fix [] s = (refl, tt, omega arith)
  poll-IsBatch gps_fix (would_block ∷ rest) s = (refl, tt, omega arith)
  poll-IsBatch gps_fix (failed ∷ rest) s = (refl, tt, omega arith)
  poll-IsBatch gps_fix (datagram r send_ok req peer ∷ rest) s =
      let out = handle gps_fix r send_ok req peer s in
      let same = handle-clock gps_fix r send_ok req peer s in
      let quiet = handle-Quiet gps_fix r send_ok req peer s in
      let n = datagrams rest in
      let skipped = poll gps_fix rest s in
      let later = poll gps_fix rest out.next in
      let on =
        answered-IsBatch s out.next n out.sent later same quiet
          (poll-IsBatch gps_fix rest out.next) in
      let stop =
        answered-IsBatch s out.next n out.sent (out.next, [], false) same quiet
          (refl, tt, omega arith) in
      let joined : NtpServer fl × List Buffer × Bool = (
        later.0,
        (elim out.sent as (λ _. List Buffer) [ none ↦ later.1 | some resp ↦ resp ∷ later.1 ]),
        later.2,
      ) in
      let ended : NtpServer fl × List Buffer × Bool = (
        out.next,
        (elim out.sent as (λ _. List Buffer) [ none ↦ [] | some resp ↦ resp ∷ [] ]),
        false,
      ) in
      IsBatch-if s (suc n) (length req == 0) skipped (if out.goes_on then joined else ended)
        (more-IsBatch s n skipped (poll-IsBatch gps_fix rest s))
        (IsBatch-if s (suc n) out.goes_on joined ended on stop)

  -- A whole poll, whatever the socket gives: it leaves the clock alone, it answers with nothing that
  -- is itself a request, and it sends at most one datagram for each that the socket has given before
  -- it had no more or failed.
  pub poll-replies :
      (gps_fix : Bool) (events : List Received) (s : NtpServer fl)
      → (clock_of (poll gps_fix events s).0 ≡ clock_of s)
        × All (λ resp. is_request resp ≡ false) (poll gps_fix events s).1
        × (length (poll gps_fix events s).1 ≤ datagrams events)
  poll-replies gps_fix events s = poll-IsBatch gps_fix events s
