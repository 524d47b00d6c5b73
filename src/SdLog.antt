-- ===== src/SdLog.antt =====
-- The log on the card, src/sdlog.rs: the queue of lines, and the flush to the card.
pub mod Writer
pub mod Queue
pub mod Flush
pub mod Form
pub mod Http
use rust_gps_ntp.Common.{
  ℕ, suc, ◌+◌, ◌-◌, ◌*◌, ◌<◌, min, Bool, true, false, Option, none, some, List, [], ◌∷◌, ◌++◌, ◌&&◌,
  ◌||◌, not, ltb, leb, ◌==◌, length, take, if◌then◌else◌,
}
use rust_gps_ntp.Common.Words.{saturating_inc}
use rust_gps_ntp.Common.Decimal.{print_u32}
use rust_gps_ntp.Ntp.Bytes.{Buffer}
use rust_gps_ntp.Ntp.Packet.{codes}

abbrev pub rotate_at_bytes : ℕ
rotate_at_bytes = 8 * 1024 * 1024

abbrev pub queue_max_bytes : ℕ
queue_max_bytes = 16 * 1024

-- `q.bytes` counts the bytes of `lines`.
pub record LineQueue : Type 0 where
  pub lines : List Buffer
  pub bytes : ℕ
  pub dropped : ℕ

unfoldable pub new_queue : LineQueue
new_queue = record { lines = []; bytes = 0; dropped = 0 }

unfoldable pub enqueue : Buffer → LineQueue → LineQueue
unfolding saturating_inc
enqueue line q =
    if ltb queue_max_bytes (q.bytes + length line)
    then record q { dropped = saturating_inc q.dropped }
    else record q { bytes = q.bytes + length line; lines = q.lines ++ (line ∷ []) }

-- The lines and the number of dropped ones, and the queue that is left.
unfoldable pub drain : LineQueue → List Buffer × ℕ × LineQueue
drain q = (q.lines, q.dropped, record { lines = []; bytes = 0; dropped = 0 })

-- The levels in their order, from the most severe.
pub data Level : Type 0 where
  error : Level
  warn : Level
  info : Level
  debug : Level
  trace : Level

abbrev pub severity : Level → ℕ
severity Level.error = 1
severity Level.warn = 2
severity Level.info = 3
severity Level.debug = 4
severity Level.trace = 5

abbrev pub level_name : Level → Buffer
level_name Level.error = codes "ERROR"
level_name Level.warn = codes "WARN"
level_name Level.info = codes "INFO"
level_name Level.debug = codes "DEBUG"
level_name Level.trace = codes "TRACE"

abbrev pub sink_level : Level
sink_level = Level.info

pub record LogRecord : Type 0 where
  pub level : Level
  pub target : Buffer
  pub args : Buffer

unfoldable pub log_line : ℕ → LogRecord → Buffer
unfolding print_u32
log_line uptime_ms r =
    print_u32 uptime_ms
    ++ (b' ' ∷ (level_name r.level ++ (b' ' ∷ (r.target ++ (b':' ∷ b' ' ∷ (r.args ++ (10 ∷ [])))))))

-- `enabled` is what the console's logger says of the record.
unfoldable pub log : Bool → ℕ → LogRecord → LineQueue → LineQueue
unfolding log_line enqueue
log enabled uptime_ms r q =
    if ltb (severity sink_level) (severity r.level) || not enabled
    then q
    else enqueue (log_line uptime_ms r) q

-- The two generations of the log on the card; a file that is not there is `none`.
pub record Card : Type 0 where
  pub current : Option Buffer
  pub rotated : Option Buffer

-- What the calls of one flush meet: whether the size can be read, whether the removal, the renaming,
-- the opening and the flushing succeed, and for each write the number of bytes after which it
-- fails, if it does.
pub record Faults : Type 0 where
  pub metadata_ok : Bool
  pub remove_ok : Bool
  pub rename_ok : Bool
  pub open_ok : Bool
  pub write : ℕ → Option ℕ
  pub flush_ok : Bool

abbrev pub contents : Option Buffer → Buffer
contents none = []
contents (some b) = b

abbrev pub is_present : Option Buffer → Bool
is_present none = false
is_present (some _) = true

abbrev pub is_large : Faults → Card → Bool
is_large f c =
    f.metadata_ok && is_present c.current && ltb rotate_at_bytes (length (contents c.current))

abbrev pub remove_rotated : Faults → Card → Card
remove_rotated f c = if f.remove_ok then record c { rotated = none } else c

-- `rename` fails where the new name is taken.
unfoldable pub rotate : Faults → Card → Card × Bool
rotate f c =
    let d : Card = remove_rotated f c in
    if f.rename_ok && not (is_present d.rotated)
    then (record { current = none; rotated = d.current }, true)
    else (d, false)

-- One write, by the fault that it meets, and what follows if it succeeds.
abbrev pub write_one : Option ℕ → Buffer → Buffer → Buffer × Bool → Buffer × Bool
write_one none line file rest = rest
write_one (some n) line file rest = (file ++ take n line, false)

-- `write_all` of the texts in turn, from the given write on, to the end of a file.
unfoldable pub write_all : (ℕ → Option ℕ) → ℕ → List Buffer → Buffer → Buffer × Bool
write_all fault i [] file = (file, true)
write_all fault i (line ∷ lines) file =
    write_one (fault i) line file (write_all fault (suc i) lines (file ++ line))

unfoldable pub dropped_line : ℕ → Buffer
unfolding print_u32
dropped_line n =
    codes "- WARN rust_gps_ntp::sdlog: "
    ++ (print_u32 n ++ (codes " line(s) dropped (queue full)\n"))

-- What a flush writes: the lines, and then the notice of the dropped ones.
abbrev pub texts_of : List Buffer → ℕ → List Buffer
texts_of lines dropped = lines ++ (if ltb 0 dropped then dropped_line dropped ∷ [] else [])

abbrev pub append_texts : Faults → List Buffer → Card → Card × Bool
append_texts f texts c =
    let w : Buffer × Bool = write_all f.write 0 texts (contents c.current) in
    if f.open_ok then (record c { current = some w.0 }, w.1 && f.flush_ok) else (c, false)

abbrev pub after_rotation : Faults → List Buffer → Card × Bool → Card × Bool
after_rotation f texts (c, true) = append_texts f texts c
after_rotation f texts (c, false) = (c, false)

abbrev pub is_nil : List Buffer → Bool
is_nil [] = true
is_nil (_ ∷ _) = false

-- The card and the queue after a flush, and whether it succeeded.
unfoldable pub flush_to_card : Faults → LineQueue → Card → LineQueue × Card × Bool
unfolding drain rotate write_all dropped_line
flush_to_card f q c =
    let taken : List Buffer × ℕ × LineQueue = drain q in
    let texts = texts_of taken.0 taken.1 in
    let after : Card × Bool =
      after_rotation f texts (if is_large f c then rotate f c else (c, true)) in
    if is_nil taken.0 && taken.1 == 0 then (taken.2, c, true) else (taken.2, after.0, after.1)
