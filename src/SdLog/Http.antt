-- ===== src/SdLog/Http.antt =====
-- The requests of the log server, src/sdlog.rs: sending a file and deleting one. The calls of the
-- file system and of the connection are arguments: what they answer. The texts of the short answers
-- are left out, and so is an error of the connection while one is sent.
pub mod Delete
pub mod Listing
pub mod Serve
use rust_gps_ntp.Common.{
  ℕ, zero, suc, ◌+◌, ◌-◌, ◌^◌, min, Bool, true, false, Option, none, some, List, [], ◌∷◌, ◌++◌,
  ◌&&◌, ◌||◌, not, ltb, ◌==◌, length, if◌then◌else◌, ◌>>=◌,
}
use rust_gps_ntp.Ntp.Bytes.{Buffer}
use rust_gps_ntp.Ntp.Packet.{codes}
use rust_gps_ntp.Protection.Cidr.{split, split_once, is_empty}
use rust_gps_ntp.SdLog.Form.{form_bytes}

abbrev pub http_chunk_bytes : ℕ
http_chunk_bytes = 2048

abbrev pub delete_body_max : ℕ
delete_body_max = 512

-- `MOUNT_POINT` and the last part of `READY_MARKER`, both of src/storage.rs.
abbrev pub mount_point : Buffer
mount_point = codes "/sdcard"

abbrev pub marker_name : Buffer
marker_name = codes ".rust_gps_ntp_ready"

-- How the sending of a file ends: at its end, or with an error of a read or of a write. The bytes are
-- those that the connection has taken.
pub data Sent : Type 0 where
  complete : Buffer → Sent
  broken : Buffer → Sent

abbrev pub saturating_add_u64 : ℕ → ℕ → ℕ
saturating_add_u64 a b = min (a + b) (2 ^ 64 - 1)

-- One round of the loop over the chunks: the loop's test, the read, whether the write succeeds, what
-- has been sent, and the next round for a chunk.
abbrev pub serve_round : Bool → Option Buffer → Bool → Buffer → (Buffer → Option Sent) → Option Sent
serve_round false chunk write_ok out next = some (Sent.complete out)
serve_round true none write_ok out next = some (Sent.broken out)
serve_round true (some []) write_ok out next = some (Sent.complete out)
serve_round true (some (c ∷ s)) false out next = some (Sent.broken out)
serve_round true (some (c ∷ s)) true out next = next (c ∷ s)

-- `read` answers for an offset, `write_ok` for the offset of the chunk that is written. `none` is the
-- end of the fuel.
unfoldable pub serve_chunks :
    (read : ℕ → Option Buffer) (write_ok : ℕ → Bool) → ℕ → ℕ → ℕ → Buffer → Option Sent
serve_chunks read write_ok zero len offset out = none
serve_chunks read write_ok (suc fuel) len offset out =
    serve_round (ltb offset len) (read offset) (write_ok offset) out (λ chunk.
      serve_chunks read write_ok fuel len (saturating_add_u64 offset (length chunk)) (out ++ chunk))

-- The answer to a request for a file whose length is given, if it can be read; the fuel is the length
-- and one.
pub data Answer : Type 0 where
  no_such_log : Answer
  streamed : (content_length : ℕ) → Option Sent → Answer

unfoldable pub serve_file : Option ℕ → (ℕ → Option Buffer) → (ℕ → Bool) → Answer
unfolding serve_chunks
serve_file none read write_ok = Answer.no_such_log
serve_file (some len) read write_ok =
    Answer.streamed len (serve_chunks read write_ok (len + 1) len 0 [])

-- What the card says of a path, and how a removal ends.
pub data Entry : Type 0 where
  file : Entry
  directory : Entry
  missing : Entry
  unreadable : Entry

pub data Removal : Type 0 where
  removed : Removal
  vanished : Removal
  failed : Removal

-- How a request to delete ends: the handler gives back an error of the connection, it panics, or it
-- answers with a status and, if it removed a file, the path of that.
pub data Deletion : Type 0 where
  connection_error : Deletion
  panicked : Deletion
  answered : ℕ → Option Buffer → Deletion

-- The body from its reads, of which `none` is an error and an empty list of reads the end. A body that
-- grows too long is given up at once.
pub data Body : Type 0 where
  unread : Body
  too_large : Body
  whole : Buffer → Body

unfoldable pub read_body : List (Option Buffer) → Buffer → Body
read_body [] body = Body.whole body
read_body (none ∷ reads) body = Body.unread
read_body (some chunk ∷ reads) body =
    let longer = body ++ chunk in
    let rest = read_body reads longer in
    if ltb delete_body_max (length longer) then Body.too_large else rest

abbrev pub eq_text : Buffer → Buffer → Bool
eq_text [] [] = true
eq_text [] (_ ∷ _) = false
eq_text (_ ∷ _) [] = false
eq_text (a ∷ s) (b ∷ t) = a == b && eq_text s t

-- The value of the first pair whose key is `name`; a part with no `=` is passed over.
abbrev pub value_of_name : List Buffer → Option Buffer
value_of_name [] = none
value_of_name (part ∷ parts) =
    let rest = value_of_name parts in
    elim (split_once b'=' part) [
      | none ↦ rest
      | some pair ↦ if eq_text pair.0 (codes "name") then some pair.1 else rest
    ]

-- A path separator in the name, and two dots in a row.
unfoldable pub has_separator : Buffer → Bool
has_separator [] = false
has_separator (c ∷ s) = c == b'/' || c == 92 || has_separator s

unfoldable pub has_dot_dot : Buffer → Bool
has_dot_dot [] = false
has_dot_dot (a ∷ []) = false
has_dot_dot (a ∷ b ∷ s) = (a == b'.' && b == b'.') || has_dot_dot (b ∷ s)

abbrev pub is_refused : Buffer → Bool
is_refused name =
    is_empty name || has_separator name || has_dot_dot name || eq_text name marker_name

abbrev pub path_of : Buffer → Buffer
path_of name = mount_point ++ (b'/' ∷ name)

abbrev pub after_removal : Buffer → Removal → Deletion
after_removal path Removal.removed = Deletion.answered 303 (some path)
after_removal path Removal.vanished = Deletion.answered 404 none
after_removal path Removal.failed = Deletion.answered 500 none

module _ (lossy : Buffer → Buffer) (metadata : Buffer → Entry)
    (remove_file : Buffer → Removal) where
  abbrev pub remove_entry : Buffer → Entry → Deletion
  remove_entry path Entry.file = after_removal path (remove_file path)
  remove_entry path Entry.directory = Deletion.answered 400 none
  remove_entry path Entry.missing = Deletion.answered 404 none
  remove_entry path Entry.unreadable = Deletion.answered 500 none

  unfoldable pub delete_name : Buffer → Deletion
  unfolding has_separator has_dot_dot
  delete_name name =
      if is_refused name
      then Deletion.answered 400 none
      else remove_entry (path_of name) (metadata (path_of name))

  -- What is done with the name that `form_decode` gives.
  abbrev pub delete_decoded : Option Buffer → Deletion
  delete_decoded none = Deletion.panicked
  delete_decoded (some bytes) = delete_name (lossy bytes)

  unfoldable pub delete_value : Option Buffer → Deletion
  unfolding form_bytes delete_name
  delete_value none = Deletion.answered 400 none
  delete_value (some value) = delete_decoded (form_bytes value)

  unfoldable pub delete_body : Body → Deletion
  unfolding delete_value split split_once
  delete_body Body.unread = Deletion.connection_error
  delete_body Body.too_large = Deletion.answered 413 none
  delete_body (Body.whole body) = delete_value (value_of_name (split b'&' (lossy body)))

  unfoldable pub handle_delete : List (Option Buffer) → Deletion
  unfolding read_body delete_body
  handle_delete reads = delete_body (read_body reads [])
