-- ===== src/Ntp/Life.antt =====
-- The operations of `NtpServer` in any order, from its start: src/ntp/mod.rs.
pub mod Clock
pub mod Batch
use rust_gps_ntp.Common.{ℕ, Bool, Option, List, [], ◌∷◌}
use rust_gps_ntp.Common.Int.{ℤ}
use rust_gps_ntp.Ntp.Bytes.{Buffer}
use rust_gps_ntp.Ntp.Float.{Floats}
use rust_gps_ntp.Ntp.Poll.{Peer, Readings, handle}
use rust_gps_ntp.Ntp.Pulse.{observe_pps_pulse}
use rust_gps_ntp.Ntp.Server.{
  NtpServer, from_socket, set_acl, set_leap_indicator, seed_utc_seconds, update_gps_utc_seconds,
}
use rust_gps_ntp.Protection.Acl.{Acl}

-- A call of the server, with the clock readings that it takes.
pub data Event : Type 0 where
  acl_set : Acl → Event
  leap_set : ℕ → Event
  seeded gps_updated : ℤ → ℤ → Event
  pulsed : Option ℕ → ℤ → Event
  received : Bool → Readings → Bool → Buffer → Peer → Event

module _ {fl : Floats} where
  unfoldable pub step : ℤ → Event → NtpServer fl → NtpServer fl
  unfolding set_acl set_leap_indicator seed_utc_seconds update_gps_utc_seconds observe_pps_pulse
      handle
  step fudge (acl_set acl) s = set_acl acl s
  step fudge (leap_set li) s = set_leap_indicator li s
  step fudge (seeded utc now_us) s = seed_utc_seconds utc now_us s
  step fudge (gps_updated utc now_us) s = update_gps_utc_seconds utc now_us s
  step fudge (pulsed interval edge_us) s = observe_pps_pulse fudge interval edge_us s
  step fudge (received gps_fix r send_ok req peer) s = (handle gps_fix r send_ok req peer s).next

  unfoldable pub run_from : ℤ → List Event → NtpServer fl → NtpServer fl
  unfolding step
  run_from fudge [] s = s
  run_from fudge (e ∷ es) s = run_from fudge es (step fudge e s)

-- The server after any sequence of calls.
unfoldable pub run : (fl : Floats) → ℤ → List Event → NtpServer fl
unfolding run_from from_socket
run fl fudge es = run_from fudge es (from_socket fl)
