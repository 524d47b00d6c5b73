-- ===== src/Timezone/Cache.antt =====
-- The caches of the zone's name, in NVS and on the card, src/timezone.rs, and what the start makes of
-- them, `load_timezone_boot` of src/board.rs. NVS is a parameter; the calls of the file system are
-- arguments.
pub mod Restored
use rust_gps_ntp.Common.{
  ℕ, Bool, true, false, Option, none, some, List, [], ◌∷◌, ◌&&◌, not, take, if◌then◌else◌, ◌>>=◌,
  ◌>>◌, ensure, is_none,
}
use rust_gps_ntp.Common.Int.{ℤ, pos}
use rust_gps_ntp.Ntp.Bytes.{Buffer}
use rust_gps_ntp.Protection.Cidr.{Text, trim, is_empty}
use rust_gps_ntp.Gps.Sentences.{Platform}

abbrev pub name_buf_len : ℕ
name_buf_len = 64

-- The partition: the text under a key with a buffer of so many bytes, where `none` is an error and
-- `some none` a missing key, and a new text for it.
pub record Nvs (S : Type 0) : Type 0 where
  pub get_str : ℕ → S → Option (Option Text)
  pub set_str : Text → S → Option S

-- What the calls for the cache's file answer: the directory, the opening, and how many bytes a write
-- takes if it does not take all.
pub record FileAnswers : Type 0 where
  pub directory : Bool
  pub opened : Bool
  pub short_write : Option ℕ

-- The store, if its namespace could be opened, and the file on the card.
pub record Caches (S : Type 0) : Type 0 where
  pub store : Option S
  pub file : Option Buffer

abbrev pub file_text : (Buffer → Option Text) → Buffer → Option Text
file_text utf8 bytes = do text ← utf8 bytes; some (trim text)

module _ (pf : Platform) (utf8 : Buffer → Option Text) where
  -- `read` gives what is in the buffer after one read of the file.
  unfoldable pub load_cached_sd :
      (ready : Bool) (read : Buffer → Option Buffer) → Option Buffer → Option Text
  unfolding trim
  load_cached_sd ready read file = do
    ensure ready
    content ← file
    bytes ← read content
    name ← file_text utf8 bytes
    ensure (not (is_empty name) && not (is_none (pf.zone_of_name name)))
    some name

module _ (as_bytes : Text → Buffer) where
  abbrev pub write_file : Option ℕ → Text → Bool × Option Buffer
  write_file none name = (true, some (as_bytes name))
  write_file (some n) name = (false, some (take n (as_bytes name)))

  -- Whether it succeeded, and the file.
  unfoldable pub save_cached_sd : Bool → FileAnswers → Text → Option Buffer → Bool × Option Buffer
  save_cached_sd ready r name file =
      if not ready
      then (true, file)
      else if not r.directory
      then (false, file)
      else if not r.opened
      then (false, file)
      else write_file r.short_write name

  module _ {S : Type 0} (nvs : Nvs S) where
    -- `TimezoneStore::save`; an error leaves the store to what NVS makes of it.
    abbrev pub save : Text → S → S
    save name s = elim (nvs.set_str name s) [ none ↦ s | some t ↦ t ]

    unfoldable pub persist_cached : Bool → FileAnswers → Text → Caches S → Caches S
    unfolding save_cached_sd
    persist_cached ready r name c = record {
      store = elim c.store [ none ↦ none | some s ↦ some (save name s) ];
      file = (save_cached_sd ready r name c.file).1;
    }

-- `TimezoneBoot`, with the offset of its snapshot, and the static of the zone in force.
pub record TimezoneBoot (pf : Platform) : Type 0 where
  pub runtime_tz : Option pf.Zone
  pub tz_offset_hours : ℤ
  pub tz_initialized : Bool
  pub current_tz_name : Option Text

module _ (pf : Platform) where
  abbrev pub set_runtime : Text → Option pf.Zone → TimezoneBoot pf → TimezoneBoot pf
  set_runtime name none b = b
  set_runtime name (some tz) b = record b {
    runtime_tz = some tz;
    tz_initialized = true;
    current_tz_name = some name;
  }

  -- `apply_cached_timezone` for the cached name, if there is one.
  unfoldable pub apply_cached_timezone : Option Text → TimezoneBoot pf → TimezoneBoot pf
  apply_cached_timezone none b = b
  apply_cached_timezone (some name) b = set_runtime name (pf.zone_of_name name) b

  -- The offset at the time of the clock chip, if it gave one, in the zone that is then in force.
  abbrev pub with_offset : (Option pf.Zone → ℤ → ℤ) → Option ℤ → TimezoneBoot pf → TimezoneBoot pf
  with_offset offset_at none b = b
  with_offset offset_at (some utc) b = record b { tz_offset_hours = offset_at b.runtime_tz utc }

abbrev pub of_store : Option (Option Text) → Option Text
of_store none = none
of_store (some name) = name

abbrev pub or_file : Option Text → Option Text → Option Text
or_file (some name) other = some name
or_file none other = other

module _ (pf : Platform) (utf8 : Buffer → Option Text) where
  -- The name in NVS, or else the one on the card.
  unfoldable pub cached_name :
      {S : Type 0} (nvs : Nvs S) (ready : Bool) (read : Buffer → Option Buffer)
      → Caches S
      → Option Text
  unfolding load_cached_sd
  cached_name nvs ready read c =
      or_file (of_store (c.store >>= nvs.get_str name_buf_len))
        (load_cached_sd pf utf8 ready read c.file)

  unfoldable pub load_timezone_boot :
      {S : Type 0} (nvs : Nvs S) (ready : Bool) (read : Buffer → Option Buffer)
      (offset_at : Option pf.Zone → ℤ → ℤ)
      → Option ℤ
      → Caches S
      → TimezoneBoot pf
  unfolding cached_name apply_cached_timezone
  load_timezone_boot nvs ready read offset_at boot_rtc_unix c =
      with_offset pf offset_at boot_rtc_unix (
        apply_cached_timezone pf (cached_name nvs ready read c) (record {
          runtime_tz = none;
          tz_offset_hours = pos 0;
          tz_initialized = false;
          current_tz_name = none;
        }))
