-- ===== src/Timezone/Cache/Restored.antt =====
-- What is stored is found again at the next start, src/timezone.rs and src/board.rs.
use rust_gps_ntp.Common.{
  ℕ, zero, suc, ◌≤◌, ◌<◌, ◌≡◌, refl, ap, Bool, true, false, Option, none, some, List, [], ◌∷◌, take,
  length, ◌>>=◌, arith,
}
use rust_gps_ntp.Common.Int.{ℤ}
use rust_gps_ntp.Ntp.Bytes.{Buffer}
use rust_gps_ntp.Protection.Cidr.{Text, trim, is_empty}
use rust_gps_ntp.Gps.Sentences.{Platform}
use rust_gps_ntp.Timezone.Cache.{
  Nvs, FileAnswers, Caches, load_cached_sd, save_cached_sd, persist_cached, cached_name,
  load_timezone_boot, name_buf_len, save, of_store,
}

-- All of a short text is taken.
take_all : {A : Type 0} (n : ℕ) (s : List A) → length s ≤ n → take n s ≡ s
take_all zero [] h = refl
take_all zero (c ∷ s) h = absurd (omega arith)
take_all (suc n) [] h = refl
take_all (suc n) (c ∷ s) h = ap (λ (t : List _). c ∷ t) (take_all n s (omega arith))

module _ (pf : Platform) (utf8 : Buffer → Option Text) (as_bytes : Text → Buffer) where
  -- A name as it is stored: of a zone, with no space around it and fewer than 64 bytes.
  pub record IsStorable (name : Text) (tz : pf.Zone) : Type 0 where
    pub known : pf.zone_of_name name ≡ some tz
    pub trimmed : trim name ≡ name
    pub full : is_empty name ≡ false
    pub short : length (as_bytes name) < name_buf_len

  abbrev read_start : Buffer → Option Buffer
  read_start content = some (take name_buf_len content)

  load_cached_sd-saved :
      (name : Text) (tz : pf.Zone)
      → utf8 (as_bytes name) ≡ some name
      → IsStorable name tz
      → load_cached_sd pf utf8 true read_start (some (as_bytes name)) ≡ some name
  unfolding load_cached_sd
  load_cached_sd-saved name tz u h =
      rw
        (
          take_all name_buf_len (as_bytes name) (omega (arith, h.short)),
          u,
          h.trimmed,
          h.full,
          h.known,
        )
        refl

  module _ {S : Type 0} (nvs : Nvs S) where
    -- NVS gives back the text that it has taken, if the text and its end fit into the buffer.
    abbrev pub GivesBack : Type 0
    GivesBack =
        (name : Text) (s t : S)
        → nvs.set_str name s ≡ some t
        → length (as_bytes name) < name_buf_len
        → nvs.get_str name_buf_len t ≡ some (some name)

    -- The name reaches NVS, or it is written to the card while NVS has no name to give.
    pub data IsStored (name : Text) (ready : Bool) (r : FileAnswers) (c : Caches S) : Type 0 where
      in_nvs : (s t : S) → c.store ≡ some s → nvs.set_str name s ≡ some t → IsStored name ready r c
      on_card :
          of_store ((persist_cached as_bytes nvs ready r name c).store >>= nvs.get_str name_buf_len)
            ≡ none
          → ready ≡ true
          → r.directory ≡ true
          → r.opened ≡ true
          → r.short_write ≡ none
          → IsStored name ready r c

    cached_name-persisted :
        (name : Text) (tz : pf.Zone) (ready : Bool) (r : FileAnswers) (c : Caches S)
        → utf8 (as_bytes name) ≡ some name
        → IsStorable name tz
        → GivesBack
        → IsStored name ready r c
        → cached_name pf utf8 nvs ready read_start (persist_cached as_bytes nvs ready r name c)
          ≡ some name
    unfolding cached_name persist_cached save_cached_sd
    cached_name-persisted name tz ready r c u h law (in_nvs s t e taken) =
        rw (e, save, taken, law name s t taken h.short) refl
    cached_name-persisted name tz ready r c u h law (on_card empty up made opened whole) =
        rw (empty, up, made, opened, whole) (load_cached_sd-saved name tz u h)

    -- A name of a zone that has reached NVS, or the card while NVS has no name to give, is in force
    -- after the next start, with its offset at the time that the clock chip gives. The name has no
    -- space around it and fewer than 64 bytes, which decode to it; NVS gives back what it has taken;
    -- and a read of the file gives its first 64 bytes.
    pub load_timezone_boot-persisted :
        (name : Text) (tz : pf.Zone) (ready : Bool) (r : FileAnswers) (c : Caches S)
        (offset_at : Option pf.Zone → ℤ → ℤ) (utc : ℤ)
        → utf8 (as_bytes name) ≡ some name
        → IsStorable name tz
        → GivesBack
        → IsStored name ready r c
        → load_timezone_boot pf utf8 nvs ready read_start offset_at
            (some utc)
            (persist_cached as_bytes nvs ready r name c)
          ≡ record {
            runtime_tz = some tz;
            tz_offset_hours = offset_at (some tz) utc;
            tz_initialized = true;
            current_tz_name = some name;
          }
    unfolding load_timezone_boot
    load_timezone_boot-persisted name tz ready r c offset_at utc u h law stored =
        rw (cached_name-persisted name tz ready r c u h law stored, h.known) refl
