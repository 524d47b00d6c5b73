-- ===== src/SdLog/Http/Listing/Markup.antt =====
-- Which markup the listing of the card has, `serve_listing` of src/sdlog.rs.
use rust_gps_ntp.Common.{
  ℕ, zero, suc, ◌/◌, ◌≡◌, refl, ap, sym, ◌∙◌, Bool, true, false, ◌&&◌, Option, none, some, List, [],
  ◌∷◌, ◌++◌, ◌||◌, ◌==◌, ltb, map, if◌then◌else◌, All, All-append, Bool-cases, inl, inr, arith,
}
use mathlib.Core.List.{Perm}
use mathlib.Core.List.Perm
use rust_gps_ntp.Common.Decimal.{print_digits}
use rust_gps_ntp.Ntp.Bytes.{Buffer}
use rust_gps_ntp.Ntp.Packet.{codes}
use rust_gps_ntp.SdLog.Form.{html_escape}
use rust_gps_ntp.SdLog.Form.RoundTrip.{Inert, html_escape-Inert}
use rust_gps_ntp.SdLog.Http.{marker_name, eq_text}
use rust_gps_ntp.SdLog.Http.Listing.{
  DirEntry, size_leb, key_leb, entry_leb, insert_entry, number, form_start, button_start,
  button_end, cells_of, row, rows, page_start, page_end, sort_entries, serve_listing,
}

-- The characters of a text that open or close a tag or a quoted attribute.
abbrev pub markup : Buffer → Buffer
markup [] = []
markup (c ∷ s) = if c == b'<' || c == b'>' || c == 34 then c ∷ markup s else markup s

-- What an entry is to the page.
pub data Kind : Type 0 where
  directory protected deletable : Kind

abbrev pub kind_of : DirEntry → Kind
kind_of e = elim e.size [
  | none ↦ directory
  | some n ↦ if eq_text e.name marker_name then protected else deletable
]

-- The rows of an entry without a name and without a number.
abbrev pub blank_row : Kind → Buffer
blank_row directory = codes "<tr><td></td>" ++ codes "<td>dir</td><td></td></tr>"
blank_row protected = codes "<tr><td></td>" ++ codes "<td></td><td>protected</td></tr>"
blank_row deletable = codes "<tr><td></td><td>" ++ (form_start ++ (button_start ++ button_end))

abbrev pub blank_rows : List Kind → Buffer
blank_rows [] = []
blank_rows (k ∷ ks) = blank_row k ++ blank_rows ks

markup-append : (s t : Buffer) → markup (s ++ t) ≡ markup s ++ markup t
markup-append [] t = refl
markup-append (c ∷ s) t = elim (Bool-cases (c == b'<' || c == b'>' || c == 34)) [
  | inl e ↦ rw e (ap (λ (r : Buffer). c ∷ r) (markup-append s t))
  | inr e ↦ rw e (markup-append s t)
]

markup-Inert : (s : Buffer) → All Inert s → markup s ≡ []
markup-Inert [] h = refl
markup-Inert (c ∷ s) h =
    let other : (c == b'<' || c == b'>' || c == 34) ≡ false = ground (arith, h.0) in
    rw other (markup-Inert s h.1)

print_digits-Inert : (fuel n : ℕ) → All Inert (print_digits fuel n)
print_digits-Inert zero n = tt
print_digits-Inert (suc fuel) n = elim (Bool-cases (ltb n 10)) [
  | inl e ↦ rw e ((ground arith, ground arith, ground arith), tt)
  | inr e ↦ rw e (
      All-append Inert (print_digits fuel (n / 10)) _ (print_digits-Inert fuel (n / 10))
        ((ground arith, ground arith, ground arith), tt))
]

markup-name : (name : Buffer) → markup (html_escape name) ≡ []
markup-name name = markup-Inert (html_escape name) (html_escape-Inert name)

markup-number : (n : ℕ) → markup (number n) ≡ []
markup-number n = markup-Inert (number n) (print_digits-Inert 20 n)

ruleset markup_laws = (markup-append, markup-name, markup-number)

cells_of-file :
    (name : Buffer) (n : ℕ)
    → markup (cells_of (some n) false (html_escape name))
      ≡ markup (codes "<td>" ++ (form_start ++ (button_start ++ button_end)))
cells_of-file name n = simp markup_laws

row-blank_of :
    (name : Buffer) (size : Option ℕ)
    → markup (row (record { name = name; size = size }))
      ≡ markup (blank_row (kind_of (record { name = name; size = size })))
unfolding row
row-blank_of name none = simp markup_laws
row-blank_of name (some n) = elim (Bool-cases (eq_text name marker_name)) [
  | inl e ↦ rw e (simp markup_laws)
  | inr e ↦ rw e (simp markup_laws)
]

rows-blank : (es : List DirEntry) → markup (rows es) ≡ markup (blank_rows (map kind_of es))
unfolding rows
rows-blank [] = refl
rows-blank (e ∷ es) =
    markup-append (row e) (rows es)
    ∙ ap (λ (r : Buffer). r ++ markup (rows es)) (row-blank_of e.name e.size)
    ∙ ap (λ (r : Buffer). markup (blank_row (kind_of e)) ++ r) (rows-blank es)
    ∙ sym (markup-append (blank_row (kind_of e)) (blank_rows (map kind_of es)))

-- Every entry comes before the next, by the bytes of its name and then by its size.
abbrev pub is_sorted : List DirEntry → Bool
is_sorted [] = true
is_sorted (e ∷ []) = true
is_sorted (e ∷ f ∷ fs) = entry_leb e f && is_sorted (f ∷ fs)

insert_entry-Perm : (e : DirEntry) (es : List DirEntry) → Perm (insert_entry e es) (e ∷ es)
insert_entry-Perm e [] = Perm.refl (e ∷ [])
insert_entry-Perm e (f ∷ fs) = elim (Bool-cases (entry_leb e f)) [
  | inl h ↦ rw h (Perm.refl (e ∷ f ∷ fs))
  | inr h ↦ rw h (Perm.trans (Perm.cons f (insert_entry-Perm e fs)) (Perm.swap e f fs))
]

sort_entries-Perm : (es : List DirEntry) → Perm (sort_entries es) es
unfolding sort_entries
sort_entries-Perm [] = Perm.refl []
sort_entries-Perm (e ∷ es) =
    Perm.trans (insert_entry-Perm e (sort_entries es)) (Perm.cons e (sort_entries-Perm es))

size_leb-total : (a b : Option ℕ) → size_leb a b ≡ false → size_leb b a ≡ true
size_leb-total none b h = cc
size_leb-total (some m) none h = refl
size_leb-total (some m) (some n) h = ground (arith, h)

key_leb-total :
    (s t : Buffer) (a b : Bool)
    → (a ≡ false → b ≡ true)
    → key_leb s t a ≡ false
    → key_leb t s b ≡ true
key_leb-total [] [] a b f h = f h
key_leb-total [] (d ∷ t) a b f h = cc
key_leb-total (c ∷ s) [] a b f h = refl
key_leb-total (c ∷ s) (d ∷ t) a b f h =
    let rest = key_leb-total s t a b f in ground (arith, h, rest)

entry_leb-total : (a b : DirEntry) → entry_leb a b ≡ false → entry_leb b a ≡ true
entry_leb-total a b =
    key_leb-total a.name b.name (size_leb a.size b.size) (size_leb b.size a.size)
      (size_leb-total a.size b.size)

insert_entry-is_sorted :
    (e : DirEntry) (es : List DirEntry) → is_sorted es ≡ true → is_sorted (insert_entry e es) ≡ true
insert_entry-is_sorted e [] h = refl
insert_entry-is_sorted e (f ∷ []) h = elim (Bool-cases (entry_leb e f)) [
  | inl k ↦ rw (k, k) refl
  | inr k ↦ rw (k, entry_leb-total e f k) refl
]
insert_entry-is_sorted e (f ∷ g ∷ gs) h =
    let rest = insert_entry-is_sorted e (g ∷ gs) (ground (arith, h)) in
    elim (Bool-cases (entry_leb e f)) [
      | inl k ↦ rw (k, k) h
      | inr k ↦ elim (Bool-cases (entry_leb e g)) [
        | inl l ↦ rw (k, l, entry_leb-total e f k) (rw l at rest)
        | inr l ↦ rw (k, l) (ground (arith, h, (rw l at rest)))
      ]
    ]

sort_entries-is_sorted : (es : List DirEntry) → is_sorted (sort_entries es) ≡ true
unfolding sort_entries
sort_entries-is_sorted [] = refl
sort_entries-is_sorted (e ∷ es) =
    insert_entry-is_sorted e (sort_entries es) (sort_entries-is_sorted es)

-- Whatever the names of the entries are, the page has the tags and the quotes of its own text, and for
-- each entry, once, those of a row of its kind, in the order of the bytes of their names and then of
-- their sizes: no name brings in a tag or ends an attribute, and only a file other than the marker has
-- a form that deletes it.
pub serve_listing-markup :
    (entries : List DirEntry)
    → (es : List DirEntry) × Perm es entries
      × (is_sorted es ≡ true)
      × (markup (serve_listing entries)
          ≡ markup (page_start ++ (blank_rows (map kind_of es) ++ page_end 0)))
unfolding serve_listing
serve_listing-markup entries = (
  sort_entries entries,
  sort_entries-Perm entries,
  sort_entries-is_sorted entries,
  simp (markup_laws, rows-blank (sort_entries entries)),
)
