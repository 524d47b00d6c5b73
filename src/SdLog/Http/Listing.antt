-- ===== src/SdLog/Http/Listing.antt =====
-- The page that lists the card, `serve_listing` of src/sdlog.rs. The entries that the file system
-- gives are an argument: a name, and the size where the metadata say that it is a file.
pub mod Markup
use rust_gps_ntp.Common.{
  ℕ, Bool, true, false, Option, none, some, List, [], ◌∷◌, ◌++◌, ltb, leb, ◌==◌, length,
  if◌then◌else◌,
}
use rust_gps_ntp.Common.Decimal.{print_digits}
use rust_gps_ntp.Ntp.Bytes.{Buffer}
use rust_gps_ntp.Ntp.Packet.{codes}
use rust_gps_ntp.SdLog.Form.{html_escape}
use rust_gps_ntp.SdLog.Http.{marker_name, eq_text}

pub record DirEntry : Type 0 where
  pub name : Buffer
  pub size : Option ℕ

-- The order of the pairs: by the bytes of the name, and then a missing size before a size.
abbrev pub size_leb : Option ℕ → Option ℕ → Bool
size_leb none _ = true
size_leb (some m) none = false
size_leb (some m) (some n) = leb m n

abbrev pub key_leb : Buffer → Buffer → Bool → Bool
key_leb [] [] equal = equal
key_leb [] (d ∷ t) equal = true
key_leb (c ∷ s) [] equal = false
key_leb (c ∷ s) (d ∷ t) equal =
    let rest = key_leb s t equal in if ltb c d then true else if c == d then rest else false

abbrev pub entry_leb : DirEntry → DirEntry → Bool
entry_leb a b = key_leb a.name b.name (size_leb a.size b.size)

abbrev pub insert_entry : DirEntry → List DirEntry → List DirEntry
insert_entry e [] = e ∷ []
insert_entry e (f ∷ fs) =
    let rest = insert_entry e fs in if entry_leb e f then e ∷ f ∷ fs else f ∷ rest

-- `entries.sort()`.
unfoldable pub sort_entries : List DirEntry → List DirEntry
sort_entries [] = []
sort_entries (e ∷ es) = insert_entry e (sort_entries es)

-- A size or a count, of 64 bits at most.
abbrev pub number : ℕ → Buffer
number n = print_digits 20 n

abbrev pub form_start : Buffer
form_start =
    codes "</td><td><form method=post action=/files/delete style="
    ++ (34
        ∷ (codes "display:inline"
            ++ (34 ∷ (codes "><input type=hidden name=name value=" ++ (34 ∷ [])))))

abbrev pub button_start : Buffer
button_start = 34 ∷ (codes "><button onclick=" ++ (34 ∷ codes "return confirm('Delete "))

abbrev pub button_end : Buffer
button_end = codes "?')" ++ (34 ∷ codes ">delete</button></form></td></tr>")

-- The cells after the name: of a directory, of the marker, and of a file that can be deleted.
abbrev pub cells_of : Option ℕ → Bool → Buffer → Buffer
cells_of none is_marker escaped = codes "<td>dir</td><td></td></tr>"
cells_of (some bytes) true escaped =
    codes "<td>" ++ (number bytes ++ codes "</td><td>protected</td></tr>")
cells_of (some bytes) false escaped =
    codes "<td>"
    ++ (number bytes ++ (form_start ++ (escaped ++ (button_start ++ (escaped ++ button_end)))))

unfoldable pub row : DirEntry → Buffer
unfolding html_escape
row e =
    let escaped = html_escape e.name in
    codes "<tr><td>"
    ++ (escaped ++ (codes "</td>" ++ cells_of e.size (eq_text e.name marker_name) escaped))

unfoldable pub rows : List DirEntry → Buffer
unfolding row
rows [] = []
rows (e ∷ es) = row e ++ rows es

abbrev pub page_start : Buffer
page_start =
    codes "<!doctype html><title>SD card</title>"
    ++ (codes "<style>body{font:14px monospace}td{padding:2px 10px}</style>"
        ++ codes "<h2>/sdcard</h2><table>")

abbrev pub page_end : ℕ → Buffer
page_end count =
    codes "</table><p>"
    ++ (number count
        ++ (codes " entries. Logs: <a href=/log>/log</a>"
            ++ codes " <a href=/log/1>/log/1</a></p>"))

-- The page; its answer has the status 200.
unfoldable pub serve_listing : List DirEntry → Buffer
unfolding sort_entries rows
serve_listing entries = page_start ++ (rows (sort_entries entries) ++ page_end (length entries))
