-- ===== src/Board/Card.antt =====
-- How the card's start goes on free pins, `StorageDevice::init` of src/storage.rs.
use rust_gps_ntp.Common.{
  ℕ, ◌≡◌, refl, ap, ◌∙◌, Bool, true, false, Option, none, some, List, ◌∷◌, not, if◌then◌else◌,
  Bool-cases, inl, inr, arith,
}
use rust_gps_ntp.Protection.Cidr.{Text}
use rust_gps_ntp.Pins.{PinPool, Claimed, ok, err, take_gpio}
use rust_gps_ntp.Pins.Startup.{started}
use rust_gps_ntp.Pins.Startup.Runs.{
  listed, AllFree, take_gpio-free, take_gpio-AllFree, release_pin-AllFree, Runs, EndsWith,
}
use rust_gps_ntp.Storage.{
  StorageDevice, StorageStatus, unmounted, attempt, or_alternate, or_unmounted,
}
use rust_gps_ntp.Storage.Mount.{MountAnswers, start_storage, try_mount, storage_name}
use rust_gps_ntp.Board.Devices.{card_pins, panel_pins}

-- The card's start: which device it gives.
abbrev pub device_of : Bool → MountAnswers → MountAnswers → StorageDevice
device_of guard primary alternate =
    if not guard
    then unmounted
    else if (try_mount primary).0.mounted
    then record { status = (try_mount primary).0; cs_pin = some 10 }
    else if (try_mount alternate).0.mounted
    then record { status = (try_mount alternate).0; cs_pin = some 33 }
    else unmounted

-- The device of an attempt, with the pins that it leaves free.
abbrev LeavesFree : Option StorageDevice → List ℕ → Option StorageDevice × PinPool Text → Type 0
LeavesFree d ns r = (r.0 ≡ d) × AllFree ns r.1

attempt-LeavesFree :
    (n : ℕ) (mount : StorageStatus) (ns : List ℕ) (r : Claimed Text ℕ × PinPool Text)
    → r.0 ≡ ok n
    → AllFree ns r.1
    → listed ns n ≡ false
    → LeavesFree
        (if mount.mounted then some (record { status = mount; cs_pin = some n }) else none)
        ns
        (attempt n mount r)
attempt-LeavesFree n mount ns (err e, p) h free e' = cc (h)
attempt-LeavesFree n mount ns (ok m, p) h free e = elim (Bool-cases mount.mounted) [
  | inl up ↦ rw up (refl, free)
  | inr down ↦ rw down (refl, release_pin-AllFree n ns p free e)
]

take-LeavesFree :
    (n : ℕ) (mount : StorageStatus) (ns : List ℕ) (p : PinPool Text)
    → AllFree (n ∷ ns) p
    → listed ns n ≡ false
    → LeavesFree
        (if mount.mounted then some (record { status = mount; cs_pin = some n }) else none)
        ns
        (attempt n mount (take_gpio n storage_name p))
take-LeavesFree n mount ns p h e =
    attempt-LeavesFree n mount ns (take_gpio n storage_name p)
      (ap (λ r. r.0) (take_gpio-free n storage_name p h.0))
      (take_gpio-AllFree n storage_name ns p h.0 h.1 e) e

abbrev or_second : Option StorageDevice → Option StorageDevice → Option StorageDevice
or_second none d = d
or_second (some found) d = some found

abbrev or_none : Option StorageDevice → StorageDevice
or_none none = unmounted
or_none (some found) = found

-- The second attempt, after the first.
or_alternate-LeavesFree :
    (d : Option StorageDevice) (mount : StorageStatus) (r : Option StorageDevice × PinPool Text)
    → LeavesFree d (33 ∷ panel_pins) r
    → LeavesFree
        (or_second d
          (if mount.mounted then some (record { status = mount; cs_pin = some 33 }) else none))
        panel_pins
        (or_alternate storage_name mount r)
or_alternate-LeavesFree none mount (none, p) h = take-LeavesFree 33 mount panel_pins p h.1 refl
or_alternate-LeavesFree none mount (some found, p) h = cc (h.0)
or_alternate-LeavesFree (some d) mount (none, p) h = cc (h.0)
or_alternate-LeavesFree (some d) mount (some found, p) h = (h.0, h.1.1)

or_unmounted-LeavesFree :
    (d : Option StorageDevice) (ns : List ℕ) (r : Option StorageDevice × PinPool Text)
    → LeavesFree d ns r
    → ((or_unmounted r).0 ≡ or_none d) × AllFree ns (or_unmounted r).1
or_unmounted-LeavesFree none ns (none, p) h = (refl, h.1)
or_unmounted-LeavesFree none ns (some found, p) h = cc (h.0)
or_unmounted-LeavesFree (some d) ns (none, p) h = cc (h.0)
or_unmounted-LeavesFree (some d) ns (some found, p) h = (cc (h.0), h.1)

chosen :
    (s t : StorageStatus)
    → or_none (
        or_second
          (if s.mounted then some (record { status = s; cs_pin = some 10 }) else none)
          (if t.mounted then some (record { status = t; cs_pin = some 33 }) else none))
      ≡ (if s.mounted
          then record { status = s; cs_pin = some 10 }
          else if t.mounted
          then record { status = t; cs_pin = some 33 }
          else unmounted)
chosen s t = ground arith

start_storage-EndsWith :
    (guard : Bool) (primary alternate : MountAnswers) (p : PinPool Text)
    → AllFree card_pins p
    → EndsWith true
        (device_of guard primary alternate)
        panel_pins
        (start_storage guard primary alternate p)
unfolding start_storage
start_storage-EndsWith false primary alternate p h = (refl, λ _. h.1.1)
start_storage-EndsWith true primary alternate p h =
    let s : StorageStatus = (try_mount primary).0 in
    let t : StorageStatus = (try_mount alternate).0 in
    let end =
      or_unmounted-LeavesFree _ panel_pins _
        (or_alternate-LeavesFree _ t _ (take-LeavesFree 10 s (33 ∷ panel_pins) p h refl)) in
    (ap (λ d. started d) (end.0 ∙ chosen s t), λ _. end.1)

pub start_storage-Runs :
    (guard : Bool) (primary alternate : MountAnswers)
    → Runs
        (start_storage guard primary alternate)
        true
        (device_of guard primary alternate)
        card_pins
        panel_pins
start_storage-Runs guard primary alternate = record {
  apply = start_storage-EndsWith guard primary alternate;
}
