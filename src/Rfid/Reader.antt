-- ===== src/Rfid/Reader.antt =====
-- server/rfid/reader.h and .cpp: what SerialReader and TcpReader make of the bytes that come from a reader.
-- Their loops differ in the size of the buffer and in what they make of a read that would block. Threads,
-- sockets and the reconnection are left out: what `select` and `read` give is a list. `std::stoi` is a
-- parameter, `none` where it throws; nothing catches that, so the program ends.
pub mod Lines
pub mod Chunks
pub mod Tokens
pub mod Readings
mod Examples
use rfidsystem.Prelude.{
  ℕ, ◌==◌, Bool, true, false, ◌&&◌, ◌||◌, Option, none, some, List, [], ◌∷◌, ◌++◌, length,
  if◌then◌else◌,
}
use rfidsystem.Prelude.Int.{ℤ, pos, negsuc, leb_ℤ}

-- A `std::string`, by the codes of its characters.
abbrev pub Chars : Type 0
Chars = List ℕ

pub record EpcEvent : Type 0 where
  pub epc : Chars
  pub reader_id : Chars
  pub task_id : ℤ
  pub rssi : ℤ
  pub timestamp_ms : ℤ

-- What a round of `readLoop` meets: nothing for a second, bytes at a time, a read that would block, the
-- end of the connection, or an error.
pub data Received : Type 0 where
  timed_out would_block closed failed : Received
  got : ℤ → Chars → Received

pub data ReaderType : Type 0 where
  serial tcp : ReaderType

-- `buffer += buf` of a buffer that ends with a NUL: the bytes up to the first NUL.
unfoldable pub until_nul : Chars → Chars
until_nul [] = []
until_nul (c ∷ cs) = let rest = until_nul cs in if c == 0 then [] else c ∷ rest

-- One more character in front of the first line, or of what is left.
unfoldable pub put_first : ℕ → List Chars × Chars → List Chars × Chars
put_first c ([], rest) = ([], c ∷ rest)
put_first c (l ∷ ls, rest) = ((c ∷ l) ∷ ls, rest)

-- The loop over the newlines of the buffer: the lines that are whole, and what is left.
unfoldable pub take_lines : Chars → List Chars × Chars
take_lines [] = ([], [])
take_lines (c ∷ cs) =
    let more = take_lines cs in if c == 10 then ([] ∷ more.0, more.1) else put_first c more

unfoldable pub is_line_end : ℕ → Bool
is_line_end c = c == 13 || c == 10

-- The line without the returns and newlines at its end.
unfoldable pub trim : Chars → Chars
trim [] = []
trim (c ∷ cs) = let rest = trim cs in if is_line_end c && length rest == 0 then [] else c ∷ rest

-- A token that begins with a string, if it is not at its end.
unfoldable pub begin_token : Chars → Chars × List Chars → List Chars
begin_token [] more = []
begin_token (c ∷ cs) more = more.0 ∷ more.1

-- The rest of a token, and the tokens after it.
unfoldable pub rest_tokens : Chars → Chars × List Chars
rest_tokens [] = ([], [])
rest_tokens (c ∷ cs) =
    let more = rest_tokens cs in if c == 44 then ([], begin_token cs more) else (c ∷ more.0, more.1)

-- The loop of `std::getline` with a comma.
unfoldable pub tokens : Chars → List Chars
tokens cs = begin_token cs (rest_tokens cs)

unfoldable pub chars_eq : Chars → Chars → Bool
chars_eq [] [] = true
chars_eq [] (d ∷ ds) = false
chars_eq (c ∷ cs) [] = false
chars_eq (c ∷ cs) (d ∷ ds) = c == d && chars_eq cs ds

-- What becomes of a line.
pub data Parsed : Type 0 where
  ignored threw : Parsed
  scanned : Chars → ℤ → Parsed

module _ (stoi : Chars → Option ℤ) (threshold : ℤ) where
  unfoldable pub scan : Chars → Option ℤ → Parsed
  scan epc none = threw
  scan epc (some rssi) = if leb_ℤ threshold rssi then scanned epc rssi else ignored

  -- The tokens of a line; a strength that is missing is -50.
  unfoldable pub parse_tokens : List Chars → Parsed
  parse_tokens [] = ignored
  parse_tokens (t ∷ []) = ignored
  parse_tokens (t ∷ epc ∷ []) =
      if chars_eq t (69 ∷ 80 ∷ 67 ∷ []) then scan epc (some (negsuc 49)) else ignored
  parse_tokens (t ∷ epc ∷ strength ∷ more) =
      if chars_eq t (69 ∷ 80 ∷ 67 ∷ []) then scan epc (stoi strength) else ignored

  -- `tokens` of an empty line are none.
  unfoldable pub parse_line : Chars → Parsed
  parse_line line =
      let trimmed : Chars = trim line in
      if length trimmed == 0 then ignored else parse_tokens (tokens trimmed)

  unfoldable pub event_of : Chars → ℤ → Chars → ℤ → EpcEvent
  event_of reader_id now epc rssi = record {
    epc = epc;
    reader_id = reader_id;
    task_id = pos 0;
    rssi = rssi;
    timestamp_ms = now;
  }

  unfoldable pub add_event : Chars → ℤ → Parsed → Option (List EpcEvent) → Option (List EpcEvent)
  add_event reader_id now ignored later = later
  add_event reader_id now threw later = none
  add_event reader_id now (scanned epc rssi) none = none
  add_event reader_id now (scanned epc rssi) (some es) = some (event_of reader_id now epc rssi ∷ es)

  -- The events of lines, which the callback gets one by one; `none` when the program ended.
  unfoldable pub parse_lines : Chars → ℤ → List Chars → Option (List EpcEvent)
  parse_lines reader_id now [] = some []
  parse_lines reader_id now (l ∷ ls) =
      add_event reader_id now (parse_line l) (parse_lines reader_id now ls)

  -- What a loop over what was received gives: the events, what is left in the buffer, and whether the
  -- connection was lost.
  pub record Outcome : Type 0 where
    pub events : List EpcEvent
    pub buffer : Chars
    pub lost : Bool

  unfoldable pub after_events : Option (List EpcEvent) → Option Outcome → Option Outcome
  after_events none later = none
  after_events (some es) none = none
  after_events (some es) (some o) = some (record o { events = es ++ o.events })

  -- `readLoop` while the reader scans.
  unfoldable pub read_loop : ReaderType → Chars → Chars → List Received → Option Outcome
  read_loop type reader_id buffer [] = some (record { events = []; buffer = buffer; lost = false })
  read_loop type reader_id buffer (timed_out ∷ rs) = read_loop type reader_id buffer rs
  read_loop serial reader_id buffer (would_block ∷ rs) =
      some (record { events = []; buffer = buffer; lost = true })
  read_loop tcp reader_id buffer (would_block ∷ rs) = read_loop tcp reader_id buffer rs
  read_loop type reader_id buffer (closed ∷ rs) =
      some (record { events = []; buffer = buffer; lost = true })
  read_loop type reader_id buffer (failed ∷ rs) =
      some (record { events = []; buffer = buffer; lost = true })
  read_loop type reader_id buffer (got now bs ∷ rs) =
      let taken : List Chars × Chars = take_lines (buffer ++ until_nul bs) in
      after_events (parse_lines reader_id now taken.0) (read_loop type reader_id taken.1 rs)
