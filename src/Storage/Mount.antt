-- ===== src/Storage/Mount.antt =====
-- The mount of the card, `try_mount` of src/storage.rs, and the start that makes up to two attempts.
-- What the calls of the drivers answer are arguments.
use rust_gps_ntp.Common.{
  ℕ, Bool, true, false, Option, none, some, ◌&&◌, ◌>>=◌, ◌>>◌, ensure, if◌then◌else◌,
}
use rust_gps_ntp.Protection.Cidr.{Text}
use rust_gps_ntp.Ntp.Packet.{codes}
use rust_gps_ntp.Pins.Startup.{Startup, started}
use rust_gps_ntp.Storage.{
  StorageStatus, no_status, card_capacity_bytes, StorageDevice, init_storage, SdState, arm, disarm,
}

-- The host, the card with its sectors and their size, the FAT layer, the mount, the marker's file with
-- its write, and the space that the file system tells.
pub record MountAnswers : Type 0 where
  pub host : Bool
  pub card : Option (ℕ × ℕ)
  pub fat : Bool
  pub mount : Bool
  pub marker_open : Bool
  pub marker_write : Bool
  pub usage : Option (ℕ × ℕ)

abbrev pub write_ready_marker : MountAnswers → Bool
write_ready_marker r = r.marker_open && r.marker_write

abbrev pub with_usage : Option (ℕ × ℕ) → StorageStatus → StorageStatus
with_usage none status = status
with_usage (some (total, free)) status = record status { total_bytes = total; free_bytes = free }

abbrev pub mounted_status : MountAnswers → ℕ × ℕ → StorageStatus
mounted_status r (capacity, sector_size) = with_usage r.usage (record {
  mounted = true;
  total_bytes = card_capacity_bytes capacity sector_size;
  free_bytes = 0;
})

abbrev pub mounted_card : MountAnswers → Option StorageStatus
mounted_card r = do
  ensure r.host
  card ← r.card
  ensure (r.fat && r.mount)
  some (mounted_status r card)

-- The status of an attempt, and whether it sets the flag that the card is ready.
abbrev pub or_unmounted_status : Option StorageStatus → StorageStatus
or_unmounted_status none = no_status
or_unmounted_status (some status) = status

abbrev pub is_some_status : Option StorageStatus → Bool
is_some_status none = false
is_some_status (some _) = true

unfoldable pub try_mount : MountAnswers → StorageStatus × Bool
try_mount r =
    (or_unmounted_status (mounted_card r), is_some_status (mounted_card r) && write_ready_marker r)

-- `try_mount` on the statics: the marker that has been written sets the flag.
abbrev pub with_ready : StorageStatus × Bool → SdState → StorageStatus × SdState
with_ready (status, ready) s = (status, if ready then record s { card_ready = true } else s)

-- `run_on_sd_thread`: a thread of its own runs the operation, which may panic, under a deadline. Where
-- the thread cannot be configured or the operation panics the chip is restarted, which is `none`.
unfoldable pub run_on_sd_thread :
    {A : Type 0} → Bool → ℕ → ℕ → (SdState → Option (A × SdState)) → SdState → Option (A × SdState)
unfolding arm disarm
run_on_sd_thread configured label now op s =
    if configured
    then elim (op (arm label now s)) [ none ↦ none | some r ↦ some (r.0, disarm r.1) ]
    else none

-- One attempt to mount, on its thread.
unfoldable pub mount_on_thread :
    Bool → ℕ → ℕ → MountAnswers → SdState → Option (StorageStatus × SdState)
unfolding run_on_sd_thread try_mount
mount_on_thread configured label now r =
    run_on_sd_thread configured label now (λ s. some (with_ready (try_mount r) s))

abbrev pub storage_name : Text
storage_name = codes "storage"

-- `StorageDevice::init` among the other starts: it ends without an error whatever happens.
unfoldable pub start_storage : Bool → MountAnswers → MountAnswers → Startup Text StorageDevice
unfolding init_storage try_mount
start_storage guard_ok primary alternate p =
    let r = init_storage guard_ok storage_name (try_mount primary).0 (try_mount alternate).0 p in
    (started r.0, r.1)
