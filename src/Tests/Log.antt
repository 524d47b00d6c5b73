-- ===== src/Tests/Log.antt =====
-- The log on the card and its server, src/sdlog.rs.
use rust_gps_ntp.Common.{◌≤◌, ◌≡◌, refl, true, false, none, some, [], ◌∷◌, ◌++◌, List, map, arith}
use rust_gps_ntp.Ntp.Bytes.{Buffer}
use rust_gps_ntp.Ntp.Packet.{codes}
use rust_gps_ntp.SdLog.{LineQueue, Card, Faults, flush_to_card}
use mathlib.Core.List.{Perm}
use rust_gps_ntp.SdLog.Queue.{Use, IsKept, uses, before_use, uses-before_use-IsKept}
use rust_gps_ntp.SdLog.Flush.{IsBounded, flush_to_card-IsBounded}
use rust_gps_ntp.SdLog.Form.{form_bytes, parse_hex, hex_value}
use rust_gps_ntp.SdLog.Form.RoundTrip.{form_bytes-panics}
use rust_gps_ntp.SdLog.Http.{
  Sent, Answer, Entry, Removal, Deletion, serve_file, handle_delete, read_body, delete_body,
  delete_value, delete_name, has_separator, has_dot_dot,
}
use rust_gps_ntp.SdLog.Http.Serve.{read_chunk, SentUpTo, serve_file-ends, serve_file-SentUpTo}
use rust_gps_ntp.SdLog.Http.Delete.{received, Removes, handle_delete-Removes}
use rust_gps_ntp.SdLog.Http.Listing.{DirEntry, page_start, page_end, serve_listing}
use rust_gps_ntp.SdLog.Http.Listing.Markup.{
  is_sorted, markup, kind_of, blank_rows, serve_listing-markup,
}
use rust_gps_ntp.Protection.Cidr.{split, split_once}

abbrev line : Buffer
line = codes "12 INFO main: up\n"

uses-before_use-IsKept_example :
    IsKept (uses (Use.offer line ∷ Use.collect ∷ Use.offer line ∷ []) before_use)
uses-before_use-IsKept_example =
    uses-before_use-IsKept (Use.offer line ∷ Use.collect ∷ Use.offer line ∷ []) (omega arith)

-- Two lines wait and three have been dropped.
abbrev waiting : LineQueue
waiting = record { lines = line ∷ line ∷ []; bytes = 34; dropped = 3 }

abbrev fresh_card : Card
fresh_card = record { current = some (codes "old\n"); rotated = none }

abbrev fault_free : Faults
fault_free = record {
  metadata_ok = true;
  remove_ok = true;
  rename_ok = true;
  open_ok = true;
  write = λ _. none;
  flush_ok = true;
}

-- The second write breaks off after five bytes.
abbrev one_fault : Faults
one_fault = record fault_free { write = λ _. some 5 }

flush_to_card-IsBounded_example : IsBounded (flush_to_card one_fault waiting fresh_card).1
flush_to_card-IsBounded_example =
    flush_to_card-IsBounded one_fault waiting fresh_card refl (omega arith) (omega arith)

-- A name with a space, a percent sign and a letter of two bytes.
abbrev odd_name : Buffer
odd_name = b'a' ∷ b' ' ∷ b'%' ∷ 0xc3 ∷ 0xa9 ∷ []

-- `x%aé`.
form_bytes-panics_example : form_bytes ((b'x' ∷ []) ++ (b'%' ∷ b'a' ∷ 0xc3 ∷ 0xa9 ∷ [])) ≡ none
form_bytes-panics_example =
    form_bytes-panics (b'x' ∷ []) b'a' 0xc3 0xa9 [] (ground arith) (omega arith) (omega arith)

-- Every write fails.
serve_file-ends_example :
    (r : Sent) × (serve_file (some 5000) (read_chunk line) (λ _. false)
      ≡ Answer.streamed 5000 (some r))
serve_file-ends_example = serve_file-ends 5000 (read_chunk line) (λ _. false) (omega arith)

-- The log has grown since its length was taken.
serve_file-SentUpTo_example :
    SentUpTo 10 (line ++ line) (serve_file (some 10) (read_chunk (line ++ line)) (λ _. true))
serve_file-SentUpTo_example = serve_file-SentUpTo (line ++ line) 10 (omega arith)

abbrev every_file : Buffer → Entry
every_file _ = Entry.file

abbrev all_go : Buffer → Removal
all_go _ = Removal.removed

handle_delete-Removes_example :
    (received (some (codes "name=a") ∷ some (codes ".txt") ∷ []) ≤ 512)
    × Removes (λ b. b) every_file all_go 303 (codes "/sdcard/a.txt")
unfolding handle_delete read_body delete_body delete_value delete_name has_separator has_dot_dot
    form_bytes parse_hex split split_once
handle_delete-Removes_example =
    handle_delete-Removes (λ b. b) every_file all_go
      (some (codes "name=a") ∷ some (codes ".txt") ∷ []) 303 (codes "/sdcard/a.txt") refl

refused :
    handle_delete (λ b. b) every_file all_go (some (codes "name=..%2Fx") ∷ [])
    ≡ Deletion.answered 400 none
unfolding handle_delete read_body delete_body delete_value delete_name has_separator has_dot_dot
    form_bytes parse_hex hex_value split split_once
refused = refl

-- A directory, and a file whose name would be a tag.
abbrev on_card : List DirEntry
on_card =
    record { name = codes "tracks"; size = none }
    ∷ record { name = codes "<b>&.txt"; size = some 12 }
    ∷ []

serve_listing-markup_example :
    (es : List DirEntry) × Perm es on_card
    × (is_sorted es ≡ true)
    × (markup (serve_listing on_card)
        ≡ markup (page_start ++ (blank_rows (map kind_of es) ++ page_end 0)))
serve_listing-markup_example = serve_listing-markup on_card
