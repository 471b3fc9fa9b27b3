-- ===== src/Replay/Stream.antt =====
-- The file of server/runtime/spatial_frame_player.cpp: an `std::ifstream` and the index made of it.
-- The stream is the file's bytes, the position, and whether an error flag is set: a read past the end
-- sets it, and from then on `seekg` and `read` do nothing until the file is opened again.
pub mod Header
use rfidsystem.Prelude.{
  ℕ, zero, suc, ◌+◌, ◌-◌, ◌==◌, ltb, Bool, true, false, Option, none, some, List, [], ◌∷◌, length,
  drop, take, if◌then◌else◌,
}
use rfidsystem.Replay.Bytes.{Bytes, from_bytes}
use rfidsystem.Replay.Recorder.{FrameRecordHeader, magic_number, header_size}

pub record Stream : Type 0 where
  pub bytes : Bytes
  pub position : ℕ
  pub failed : Bool

unfoldable pub seekg : ℕ → Stream → Stream
seekg to s = if s.failed then s else record s { position = to }

-- `read` of `n` bytes: what it stores, and the stream. When there are fewer, those that there are.
unfoldable pub read : ℕ → Stream → Stream × Bytes
read n s =
    let rest : Bytes = drop s.position s.bytes in
    if s.failed
    then (s, [])
    else if ltb (length rest) n
    then (record s { position = s.position + length rest; failed = true }, rest)
    else (record s { position = s.position + n }, take n rest)

unfoldable pub header_from : Bytes → FrameRecordHeader
header_from bs = record {
  magic = from_bytes (take 8 bs);
  timestamp = from_bytes (take 8 (drop 8 bs));
  payload_size = from_bytes (take 4 (drop 16 bs));
  checksum = from_bytes (take 4 (drop 20 bs));
}

-- `readHeader`: the header, if the stream is good and the magic number is right.
unfoldable pub read_header : Stream → Stream × Option FrameRecordHeader
read_header s =
    let (s', bs) = read header_size s in
    let h : FrameRecordHeader = header_from bs in
    (s', if s'.failed then none else if h.magic == magic_number then some h else none)

-- The loop of `loadIndex`, on fuel: the positions and timestamps.
unfoldable pub load_loop : ℕ → Stream → List (ℕ × ℕ)
load_loop zero s = []
load_loop (suc fuel) s =
    let (s', o) = read_header s in
    elim o [
      | none ↦ []
      | some h ↦
          (s'.position - header_size, h.timestamp)
          ∷ load_loop fuel (seekg (s'.position + h.payload_size) s')
    ]

-- A round takes 24 bytes at least, so the file's length is fuel enough.
unfoldable pub load_index : Bytes → List (ℕ × ℕ)
load_index bytes =
    load_loop (suc (length bytes)) (record { bytes = bytes; position = 0; failed = false })
