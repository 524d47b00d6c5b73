-- ===== src/SdLog/Http/Delete.antt =====
-- Which files a request can delete, `handle_delete` of src/sdlog.rs.
use rust_gps_ntp.Common.{
  ℕ, ◌+◌, ◌≤◌, ◌≡◌, ◌≢◌, refl, ap, ◌∙◌, sym, Bool, true, false, Option, none, some, List, [], ◌∷◌,
  ◌++◌, ◌||◌, ltb, length, length-append, All, Bool-cases, inl, inr, arith,
}
use rust_gps_ntp.Ntp.Bytes.{Buffer}
use rust_gps_ntp.Protection.Cidr.{is_empty, split}
use rust_gps_ntp.SdLog.Form.{form_bytes}
use rust_gps_ntp.SdLog.Http.{
  Entry, Removal, Deletion, Body, read_body, has_separator, has_dot_dot, is_refused, eq_text,
  path_of, after_removal, delete_decoded, marker_name, remove_entry, delete_name, delete_value,
  delete_body, handle_delete, value_of_name, delete_body_max,
}

-- The bytes that have been received.
abbrev pub received : List (Option Buffer) → ℕ
received [] = 0
received (none ∷ reads) = received reads
received (some chunk ∷ reads) = length chunk + received reads

read_body-bound :
    (reads : List (Option Buffer)) (body whole : Buffer)
    → length body ≤ delete_body_max
    → read_body reads body ≡ Body.whole whole
    → length body + received reads ≤ delete_body_max
unfolding read_body
read_body-bound [] body whole h e = omega arith
read_body-bound (none ∷ reads) body whole h e = cc
read_body-bound (some chunk ∷ reads) body whole h e =
    elim (Bool-cases (ltb delete_body_max (length (body ++ chunk)))) [
      | inl large ↦ let bad : Body.too_large ≡ Body.whole whole = rw large at e in cc
      | inr fits ↦ omega (
        arith,
        length-append body chunk,
        read_body-bound reads (body ++ chunk) whole (ground (arith, fits)) (rw fits at e),
      )
    ]

eq_text_refl : (s : Buffer) → eq_text s s ≡ true
eq_text_refl [] = refl
eq_text_refl (c ∷ s) = ground (arith, eq_text_refl s)

-- A name of one file at the top of the card, other than the marker.
abbrev pub IsTopLevel : Buffer → Type 0
IsTopLevel name =
    (name ≢ [])
    × All (λ c. (c ≢ b'/') × (c ≢ 92)) name
    × (has_dot_dot name ≡ false)
    × (name ≢ marker_name)

has_separator-All : (s : Buffer) → has_separator s ≡ false → All (λ c. (c ≢ b'/') × (c ≢ 92)) s
unfolding has_separator
has_separator-All [] h = tt
has_separator-All (c ∷ s) h =
    let here : (c ≢ b'/') × (c ≢ 92) = ground (arith, h) in
    (here, has_separator-All s (ground (arith, h)))

allowed-IsTopLevel : (name : Buffer) → is_refused name ≡ false → IsTopLevel name
allowed-IsTopLevel name h =
    let parts =
      split_or (is_empty name) (has_separator name) (has_dot_dot name) (eq_text name marker_name)
        h in
    (
      (λ e. let t : true ≡ false = ap is_empty (sym e) ∙ parts.0 in cc),
      has_separator-All name parts.1,
      parts.2,
      (λ e.
          let t : true ≡ false =
            sym (eq_text_refl marker_name) ∙ ap (λ n. eq_text n marker_name) (sym e) ∙ parts.3 in
          cc),
    )
  where
    split_or :
        (a b c d : Bool)
        → (a || b || c || d) ≡ false
        → (a ≡ false) × (b ≡ false) × (c ≡ false) × (d ≡ false)
    split_or a b c d e = ground (arith, e)

module _ (lossy : Buffer → Buffer) (metadata : Buffer → Entry)
    (remove_file : Buffer → Removal) where
  -- What is true of a removal.
  abbrev pub Removes : ℕ → Buffer → Type 0
  Removes status path =
      (name : Buffer) × (path ≡ path_of name)
      × IsTopLevel name
      × (metadata path ≡ Entry.file)
      × (remove_file path ≡ Removal.removed)
      × (status ≡ 303)

  after_removal-Removes :
      (path : Buffer) (r : Removal) (status : ℕ) (gone : Buffer)
      → after_removal path r ≡ Deletion.answered status (some gone)
      → (r ≡ Removal.removed) × (status ≡ 303) × (gone ≡ path)
  after_removal-Removes path Removal.removed status gone h = (refl, cc, cc)
  after_removal-Removes path Removal.vanished status gone h = cc
  after_removal-Removes path Removal.failed status gone h = cc

  remove_entry-Removes :
      (path : Buffer) (e : Entry) (status : ℕ) (gone : Buffer)
      → remove_entry lossy metadata remove_file path e ≡ Deletion.answered status (some gone)
      → (e ≡ Entry.file) × (remove_file path ≡ Removal.removed) × (status ≡ 303) × (gone ≡ path)
  remove_entry-Removes path Entry.file status gone h =
      let k = after_removal-Removes path (remove_file path) status gone h in (refl, k.0, k.1, k.2)
  remove_entry-Removes path Entry.directory status gone h = cc
  remove_entry-Removes path Entry.missing status gone h = cc
  remove_entry-Removes path Entry.unreadable status gone h = cc

  delete_name-Removes :
      (name : Buffer) (status : ℕ) (path : Buffer)
      → delete_name lossy metadata remove_file name ≡ Deletion.answered status (some path)
      → Removes status path
  unfolding delete_name
  delete_name-Removes name status path h = elim (Bool-cases (is_refused name)) [
    | inl e ↦
        let bad : Deletion.answered 400 none ≡ Deletion.answered status (some path) = rw e at h in
        cc
    | inr e ↦
        let k =
          remove_entry-Removes (path_of name) (metadata (path_of name)) status path (rw e at h) in
        (name, k.3, allowed-IsTopLevel name e, rw k.3 k.0, rw k.3 k.1, k.2)
  ]

  delete_decoded-Removes :
      (decoded : Option Buffer) (status : ℕ) (path : Buffer)
      → delete_decoded lossy metadata remove_file decoded ≡ Deletion.answered status (some path)
      → Removes status path
  delete_decoded-Removes none status path h = cc
  delete_decoded-Removes (some bytes) status path h =
      delete_name-Removes (lossy bytes) status path h

  delete_value-Removes :
      (value : Option Buffer) (status : ℕ) (path : Buffer)
      → delete_value lossy metadata remove_file value ≡ Deletion.answered status (some path)
      → Removes status path
  unfolding delete_value
  delete_value-Removes none status path h = cc
  delete_value-Removes (some value) status path h =
      delete_decoded-Removes (form_bytes value) status path h

  delete_body-Removes :
      (b : Body) (status : ℕ) (path : Buffer)
      → delete_body lossy metadata remove_file b ≡ Deletion.answered status (some path)
      → ((text : Buffer) × (b ≡ Body.whole text)) × Removes status path
  unfolding delete_body
  delete_body-Removes Body.unread status path h = cc
  delete_body-Removes Body.too_large status path h = cc
  delete_body-Removes (Body.whole text) status path h =
      ((text, refl), delete_value-Removes (value_of_name (split b'&' (lossy text))) status path h)

  -- A request that removes a path has a body of at most 512 bytes, and the path is that of a name at
  -- the top of the card: not empty, with no slash, backslash or `..` in it, and not the marker's.
  -- The card says that it is a file, and that it has been removed; the answer is 303.
  pub handle_delete-Removes :
      (reads : List (Option Buffer)) (status : ℕ) (path : Buffer)
      → handle_delete lossy metadata remove_file reads ≡ Deletion.answered status (some path)
      → (received reads ≤ delete_body_max) × Removes status path
  unfolding handle_delete
  handle_delete-Removes reads status path h =
      let k = delete_body-Removes (read_body reads []) status path h in
      let fits = read_body-bound reads [] k.0.0 (omega arith) k.0.1 in (omega arith, k.1)
