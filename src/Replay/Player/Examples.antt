-- ===== src/Replay/Player/Examples.antt =====
-- A recording of two frames, and its playback.
use rfidsystem.Prelude.{
  All, ℕ, ◌+◌, ltb, ◌≡◌, refl, true, false, Option, none, some, List, [], ◌∷◌, ◌++◌, map, arith,
  length, drop, take, All, if◌then◌else◌,
}
use rfidsystem.Prelude.Int.{pos, pos_part}
use rfidsystem.Replay.Bytes.{Bytes, to_bytes, from_bytes, compute_checksum, int_to_u64}
use rfidsystem.Replay.SpatialFrame.{Machine, HeatCell, SpatialFrame, ProtoFrame, cleared}
use rfidsystem.Replay.SpatialFrame.Hash.{hash}
use rfidsystem.Replay.Recorder.{
  header_bytes, SpatialFrameRecorder, new_recorder, open_recorder, cell_to_proto, to_proto,
  header_of, record_bytes, append,
}
use rfidsystem.Replay.Stream.{seekg, read, header_from, read_header, load_loop, load_index}
use rfidsystem.Replay.Player.{
  SpatialFramePlayer, new_player, open_player, position_at, from_proto, fill, take_payload,
  take_buffer, take_header, read_frame_from, read_frame_at,
}
use rfidsystem.Replay.Bytes.{Bytes, to_bytes, from_bytes, compute_checksum, int_to_u64}
use rfidsystem.Replay.SpatialFrame.{Machine, HeatCell, SpatialFrame, ProtoFrame, cleared}
use rfidsystem.Replay.SpatialFrame.Hash.{hash}
use rfidsystem.Replay.Recorder.{
  header_bytes, SpatialFrameRecorder, new_recorder, open_recorder, cell_to_proto, to_proto,
  header_of, record_bytes, append,
}
use rfidsystem.Replay.Stream.{seekg, read, header_from, read_header, load_loop, load_index}
use rfidsystem.Replay.Player.{
  SpatialFramePlayer, new_player, open_player, position_at, from_proto, fill, take_payload,
  take_buffer, take_header, read_frame_from, read_frame_at,
}
use rfidsystem.Replay.Bytes.{crc_bit, crc_bits, crc_bytes}
use rfidsystem.Replay.SpatialFrame.Hash.{
  hash_combine, hash_all, sort_by, insert_by, hash_cell, combine_all,
}
use rfidsystem.Replay.Player.RoundTrip.{frames, append_all, recording_plays_back}
use rfidsystem.Replay.Player.Copies.{recorded}
use rfidsystem.Replay.Player.Broken.{reads, run, step}

-- A machine whose numbers of every type are their own bits and hashes.
abbrev machine : Machine
machine = record {
  D = ℕ;
  F = ℕ;
  zero_double = 0;
  double_bits = λ n. n;
  float_bits = λ n. n;
  std_hash_u64 = λ n. n;
  std_hash_u32 = λ n. n;
  std_hash_i64 = int_to_u64;
  std_hash_i32 = int_to_u64;
}

-- A format for frames of heat cells with small numbers.
unfoldable put_cells : List (HeatCell ℕ) → Bytes
put_cells [] = []
put_cells (c ∷ cs) = pos_part c.x ∷ pos_part c.y ∷ c.value ∷ put_cells cs

unfoldable get_cells : Bytes → List (HeatCell ℕ)
get_cells [] = []
get_cells (x ∷ []) = []
get_cells (x ∷ y ∷ []) = []
get_cells (x ∷ y ∷ v ∷ rest) = record { x = pos x; y = pos y; value = v } ∷ get_cells rest

unfoldable serialize : ProtoFrame ℕ ℕ → Bytes
serialize p =
    to_bytes 8 (pos_part p.timestamp)
    ++ (to_bytes 8 p.frame_id ++ (to_bytes 8 p.frame_hash ++ put_cells p.heatmap))

unfoldable parse : Bytes → Option (ProtoFrame ℕ ℕ)
parse bs =
    if ltb (length bs) 24
    then none
    else some (record {
      timestamp = pos (from_bytes (take 8 bs));
      frame_id = from_bytes (take 8 (drop 8 bs));
      assets = [];
      heatmap = get_cells (drop 24 bs);
      congestion = [];
      decisions = [];
      predictions = [];
      processing_time_ms = 0;
      is_key_frame = false;
      frame_hash = from_bytes (take 8 (drop 16 bs));
    })

abbrev frame_at : ℕ → List (HeatCell ℕ) → SpatialFrame ℕ ℕ
frame_at t cells = record {
  timestamp = pos t;
  frame_id = t + 1;
  assets = [];
  heatmap = cells;
  congestion = [];
  decisions = [];
  predictions = [];
  overlays = [];
  processing_time_ms = 0;
  is_key_frame = false;
  decision_hash = 9;
  collect_ms = 1;
  heatmap_ms = 0;
  congestion_ms = 0;
  decision_ms = 0;
  overlay_ms = 0;
  upload_ms = 0;
  render_ms = 2;
}

abbrev two_frames : List (SpatialFrame ℕ ℕ)
two_frames =
    frame_at 1000 (record { x = pos 3; y = pos 4; value = 200 } ∷ []) ∷ frame_at 1016 [] ∷ []

abbrev recorder : SpatialFrameRecorder
recorder = record new_recorder { opened = true }

abbrev file : Bytes
file = (append_all machine serialize parse two_frames recorder).file

abbrev player : SpatialFramePlayer ℕ ℕ
player = record new_player {
  file = record { bytes = file; position = 0; failed = false };
  is_open = true;
  index = load_index file;
}

recording_plays_back_example :
    frames machine serialize parse 2 player
    ≡ (
      some (recorded machine (frame_at 1000 (record { x = pos 3; y = pos 4; value = 200 } ∷ []))),
      hash machine (frame_at 1000 (record { x = pos 3; y = pos 4; value = 200 } ∷ [])),
    )
      ∷ (some (recorded machine (frame_at 1016 [])), hash machine (frame_at 1016 []))
      ∷ []
unfolding serialize parse put_cells get_cells to_bytes to_proto from_bytes cell_to_proto hash
    hash_combine hash_all sort_by insert_by hash_cell combine_all open_recorder new_recorder
    open_player new_player
recording_plays_back_example =
    recording_plays_back machine serialize parse two_frames recorder player (refl, (refl, tt))
      ((tt, omega arith), ((tt, omega arith), tt)) (omega arith) refl refl

-- The bytes of the recording.
abbrev file_bytes : Bytes
file_bytes =
    70 ∷ 76 ∷ 65 ∷ 73 ∷ 84 ∷ 65 ∷ 80 ∷ 83 ∷ 232 ∷ 3 ∷ 0 ∷ 0 ∷ 0 ∷ 0 ∷ 0 ∷ 0 ∷ 27 ∷ 0 ∷ 0 ∷ 0 ∷ 84
    ∷ 208 ∷ 80 ∷ 187 ∷ 232 ∷ 3 ∷ 0 ∷ 0 ∷ 0 ∷ 0 ∷ 0 ∷ 0 ∷ 233 ∷ 3 ∷ 0 ∷ 0 ∷ 0 ∷ 0 ∷ 0 ∷ 0 ∷ 58 ∷ 182
    ∷ 5 ∷ 201 ∷ 203 ∷ 83 ∷ 181 ∷ 41 ∷ 3 ∷ 4 ∷ 200 ∷ 70 ∷ 76 ∷ 65 ∷ 73 ∷ 84 ∷ 65 ∷ 80 ∷ 83 ∷ 248 ∷ 3
    ∷ 0 ∷ 0 ∷ 0 ∷ 0 ∷ 0 ∷ 0 ∷ 24 ∷ 0 ∷ 0 ∷ 0 ∷ 26 ∷ 235 ∷ 45 ∷ 84 ∷ 248 ∷ 3 ∷ 0 ∷ 0 ∷ 0 ∷ 0 ∷ 0 ∷ 0
    ∷ 249 ∷ 3 ∷ 0 ∷ 0 ∷ 0 ∷ 0 ∷ 0 ∷ 0 ∷ 82 ∷ 22 ∷ 26 ∷ 251 ∷ 22 ∷ 10 ∷ 0 ∷ 0 ∷ []

append_all-file_bytes : file ≡ file_bytes
unfolding append_all append new_recorder record_bytes header_bytes header_of to_bytes serialize
    put_cells to_proto compute_checksum crc_bytes crc_bits crc_bit hash hash_combine hash_all
    sort_by insert_by hash_cell combine_all cell_to_proto
append_all-file_bytes = refl

-- The file without its last three bytes: the second frame's payload is cut short.
abbrev cut_file : Bytes
cut_file = take 96 file_bytes

abbrev cut_player : SpatialFramePlayer ℕ ℕ
cut_player = record new_player {
  file = record { bytes = cut_file; position = 0; failed = false };
  is_open = true;
  index = (0, 1000) ∷ (51, 1016) ∷ [];
}

-- The frame that was cut is in the index all the same.
load_index-cut : load_index cut_file ≡ cut_player.index
unfolding load_index load_loop read_header read header_from from_bytes seekg
load_index-cut = refl

abbrev frame_number : Option (SpatialFrame ℕ ℕ) → ℕ
frame_number none = 0
frame_number (some f) = f.frame_id

-- The frame before it can be read first, but no longer after it.
cut_file-run :
    map frame_number (run machine parse (reads 0 ∷ reads 1 ∷ reads 0 ∷ []) cut_player).1
    ≡ 1001 ∷ (0 ∷ (0 ∷ []))
unfolding run step read_frame_at read_frame_from position_at take_header take_buffer take_payload
    fill new_player read_header read header_from from_bytes seekg parse get_cells compute_checksum
    crc_bytes crc_bits crc_bit from_proto cleared cell_to_proto
cut_file-run = refl
