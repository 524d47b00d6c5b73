-- ===== src/Pps/Device.antt =====
-- The pulse input, `PpsDevice` of src/pps.rs: its start, and its polls with the cursor it keeps.
use rust_gps_ntp.Common.{ℕ, Bool, Option}
use rust_gps_ntp.Common.Int.{pos}
use rust_gps_ntp.Protection.Cidr.{Text}
use rust_gps_ntp.Ntp.Packet.{codes}
use rust_gps_ntp.Pins.{PinPool, release_pin}
use rust_gps_ntp.Pins.Startup.{Startup, ◌>>◌, pure, take_pin, platform}
use rust_gps_ntp.Pps.{PpsMonitor, PpsPollState, PpsEvent, new, poll}

abbrev pub pps_name : Text
pps_name = codes "pps"

-- What the calls of the start answer: the input, the handler's subscription, the kind of the
-- interrupt, and its enabling.
pub record InputAnswers : Type 0 where
  pub input : Bool
  pub subscribe : Bool
  pub edge_kind : Bool
  pub enable : Bool

pub record PpsDevice : Type 0 where
  pub monitor : PpsMonitor
  pub poll_state : PpsPollState

unfoldable pub new_device : PpsDevice
unfolding new
new_device = record { monitor = new; poll_state = record { last_count = 0; last_edge_us = 0 } }

unfoldable pub configure_interrupt : InputAnswers → Startup Text (Unit {0})
configure_interrupt r = do platform r.subscribe; platform r.edge_kind; platform r.enable

unfoldable pub init_pps : InputAnswers → Startup Text PpsDevice
unfolding configure_interrupt
init_pps r = do take_pin pps_name 12; platform r.input; configure_interrupt r; pure new_device

unfoldable pub close_pps : PinPool Text → PinPool Text
unfolding release_pin
close_pps p = release_pin (pos 12) p

-- A poll, with the pair that the snapshot of the monitor gives.
unfoldable pub poll_device : ℕ → ℕ → PpsDevice → Option PpsEvent × PpsDevice
unfolding poll
poll_device count now_us d =
    let r : Option PpsEvent × PpsPollState = poll count now_us d.poll_state in
    (r.0, record d { poll_state = r.1 })

abbrev pub pulse_count : PpsDevice → ℕ
pulse_count d = d.poll_state.last_count
