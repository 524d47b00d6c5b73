-- ===== src/Gps/Uart.antt =====
-- The ingest of the GPS receiver's UART, `GpsUart` of src/gps.rs.
use rust_gps_ntp.Common.{
  ℕ, ◌+◌, Bool, Option, none, some, List, [], ◌∷◌, ◌++◌, ◌||◌, ◌==◌, reverse, length, if◌then◌else◌,
}
use rust_gps_ntp.Common.Words.{u64}
use rust_gps_ntp.Ntp.Bytes.{Buffer}
use rust_gps_ntp.Ntp.Packet.{codes}
use rust_gps_ntp.Protection.Cidr.{Text, trim}
use rust_gps_ntp.Common.Int.{pos}
use rust_gps_ntp.Pins.{PinPool, release_pin}
use rust_gps_ntp.Pins.Startup.{Startup, ◌>>◌, take_pin, platform}
use rust_gps_ntp.Gps.{starts_with_dollar, starts_with}
use rust_gps_ntp.Gps.Sentences.{Platform, GpsSnapshot, parse_rmc, parse_gga}

abbrev pub trim_start_matches : ℕ → Text → Text
trim_start_matches at [] = []
trim_start_matches at (c ∷ s) = if c == at then trim_start_matches at s else c ∷ s

unfoldable pub trim_end_matches : ℕ → Text → Text
trim_end_matches at s = reverse (trim_start_matches at (reverse s))

-- The lines of a text, without their newlines, and what follows the last newline.
abbrev pub onto_lines : ℕ → List Text × Text → List Text × Text
onto_lines c ([], rest) = ([], c ∷ rest)
onto_lines c (line ∷ lines, rest) = ((c ∷ line) ∷ lines, rest)

unfoldable pub lines_of : Text → List Text × Text
lines_of [] = ([], [])
lines_of (c ∷ s) =
    let r : List Text × Text = lines_of s in if c == 10 then ([] ∷ r.0, r.1) else onto_lines c r

abbrev pub is_rmc : Text → Bool
is_rmc line = starts_with (codes "$GNRMC") line || starts_with (codes "$GPRMC") line

abbrev pub is_gga : Text → Bool
is_gga line = starts_with (codes "$GNGGA") line || starts_with (codes "$GPGGA") line

module _ (pf : Platform) where
  -- The calls of the consumer, in their order, with the snapshots that they are given.
  pub data Call : Type 0 where
    on_snapshot : GpsSnapshot pf → Call
    on_fix : GpsSnapshot pf → Call

  pub record GpsUart : Type 0 where
    pub snapshot : GpsSnapshot pf
    pub line_buf : Text
    pub bytes_seen : ℕ
    pub calls : List Call

module _ {pf : Platform} where
  abbrev pub after_rmc : Option (GpsSnapshot pf) → GpsUart pf → GpsUart pf
  after_rmc none u = u
  after_rmc (some g) u = record u {
    snapshot = g;
    calls = u.calls ++ (on_snapshot g ∷ (if g.fix then on_fix g ∷ [] else []));
  }

  abbrev pub after_gga : Option (GpsSnapshot pf) → GpsUart pf → GpsUart pf
  after_gga none u = u
  after_gga (some g) u = record u { snapshot = g; calls = u.calls ++ (on_snapshot g ∷ []) }

  unfoldable pub discard_backlog : GpsUart pf → GpsUart pf
  discard_backlog u = record u { line_buf = [] }

  unfoldable pub set_snapshot : GpsSnapshot pf → GpsUart pf → GpsUart pf
  set_snapshot g u = record u { snapshot = g }

module _ (pf : Platform) (zone : Option pf.Zone) where
  -- What is done with one line.
  unfoldable pub on_line : Text → GpsUart pf → GpsUart pf
  unfolding trim trim_end_matches starts_with parse_rmc parse_gga
  on_line line u =
      let trimmed = trim (trim_end_matches 13 line) in
      if starts_with_dollar trimmed
      then (if is_rmc trimmed
          then after_rmc (parse_rmc pf zone trimmed u.snapshot) u
          else if is_gga trimmed
          then after_gga (parse_gga pf trimmed u.snapshot) u
          else u)
      else u

  unfoldable pub on_lines : List Text → GpsUart pf → GpsUart pf
  unfolding on_line
  on_lines [] u = u
  on_lines (line ∷ lines) u = on_lines lines (on_line line u)

  -- The loop over the lines that the buffer holds once a chunk has been added.
  unfoldable pub feed : Text → GpsUart pf → GpsUart pf
  unfolding lines_of on_lines
  feed chunk u =
      let r : List Text × Text = lines_of (u.line_buf ++ chunk) in
      on_lines r.0 (record u { line_buf = r.1 })

  -- A poll that reads the given bytes, or meets an error; `utf8` is the decoder of UTF-8.
  unfoldable pub poll_bytes : (Buffer → Option Text) → Buffer → GpsUart pf → GpsUart pf
  unfolding feed
  poll_bytes utf8 [] u = u
  poll_bytes utf8 (b ∷ bytes) u =
      let seen : GpsUart pf = record u { bytes_seen = u64 (u.bytes_seen + length (b ∷ bytes)) } in
      elim (utf8 (b ∷ bytes)) [ none ↦ seen | some chunk ↦ feed chunk seen ]

  unfoldable pub poll : (Buffer → Option Text) → Option Buffer → GpsUart pf → GpsUart pf
  unfolding poll_bytes
  poll utf8 none u = u
  poll utf8 (some bytes) u = poll_bytes utf8 bytes u

abbrev pub gps_name : Text
gps_name = codes "gps"

-- `GpsUart::init`: the pins and the driver. The request of a shorter output is written next, and an
-- error of that is only logged.
unfoldable pub init_uart : Bool → Startup Text (Unit {0})
init_uart driver_ok = do take_pin gps_name 1; take_pin gps_name 2; platform driver_ok

unfoldable pub close_uart : PinPool Text → PinPool Text
unfolding release_pin
close_uart p = release_pin (pos 2) (release_pin (pos 1) p)
