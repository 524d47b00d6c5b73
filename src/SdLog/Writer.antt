-- ===== src/SdLog/Writer.antt =====
-- The writer's thread, `start_writer`, and the start of the log server, `start_http_server`, of
-- src/sdlog.rs.
use rust_gps_ntp.Common.{ℕ, ◌+◌, Bool, true, false, List, [], ◌∷◌, ◌&&◌, not, if◌then◌else◌}
use rust_gps_ntp.Ntp.Bytes.{Buffer}
use rust_gps_ntp.Ntp.Packet.{codes}
use rust_gps_ntp.SdLog.{LineQueue, Card, Faults, flush_to_card}

-- The thread between two sleeps: the queue, the card, whether the last flush failed, and how many
-- flushes have been warned of.
pub record Writer : Type 0 where
  pub queue : LineQueue
  pub card : Card
  pub failed_once : Bool
  pub warnings : ℕ

-- After a flush, by whether it succeeded: only the first failure of a row is warned of.
abbrev pub after_flush : Writer → LineQueue × Card × Bool → Writer
after_flush w (queue, card, true) = record w { queue = queue; card = card; failed_once = false }
after_flush w (queue, card, false) = record w {
  queue = queue;
  card = card;
  failed_once = true;
  warnings = if w.failed_once then w.warnings else w.warnings + 1;
}

-- One round of the loop.
unfoldable pub writer_turn : Bool → Faults → Writer → Writer
unfolding flush_to_card
writer_turn ready f w = if not ready then w else after_flush w (flush_to_card f w.queue w.card)

pub data Method : Type 0 where
  get post : Method

-- What answers a request.
pub data Handler : Type 0 where
  index_text : Handler
  listing : Handler
  deletion : Handler
  current_log : Handler
  rotated_log : Handler

-- The routes, in the order in which they are registered.
abbrev pub routes : List (Buffer × Method × Handler)
routes =
    (codes "/", get, index_text)
    ∷ (codes "/files", get, listing)
    ∷ (codes "/files/delete", post, deletion)
    ∷ (codes "/log", get, current_log)
    ∷ (codes "/log/1", get, rotated_log)
    ∷ []

-- Whether all of them are registered; the first that is refused ends the start.
unfoldable pub register_all : (Buffer → Method → Bool) → List (Buffer × Method × Handler) → Bool
register_all registers [] = true
register_all registers ((path, method, handler) ∷ rest) =
    registers path method && register_all registers rest

unfoldable pub start_http_server : Bool → (Buffer → Method → Bool) → Bool
unfolding register_all
start_http_server server_ok registers = server_ok && register_all registers routes
