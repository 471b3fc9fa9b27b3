-- ===== src/Replay/Player.antt =====
-- server/runtime/spatial_frame_player.h and .cpp: SpatialFramePlayer, which plays a recorded file.
-- `parse` of Protocol Buffers is a parameter. The playback thread is a function for one round of its
-- loop; its sleep is left out.
pub mod Index
pub mod Copies
pub mod RoundTrip
pub mod Broken
mod Examples
use rfidsystem.Prelude.{
  ℕ, zero, suc, ◌+◌, ◌==◌, ltb, leb, Bool, true, false, ◌&&◌, Option, none, some, List, [], ◌∷◌,
  map, length, snoc, u64, if◌then◌else◌,
}
use rfidsystem.Replay.Bytes.{Bytes, compute_checksum}
use rfidsystem.Replay.Stream.{Stream, seekg, read, read_header, load_index}
use rfidsystem.Replay.SpatialFrame.{Machine, AssetPosition, SpatialFrame, ProtoFrame, cleared}
use rfidsystem.Replay.Recorder.{
  FrameRecordHeader, cell_to_proto, zone_to_proto, decision_to_proto, prediction_to_proto,
}

pub data PlaybackState : Type 0 where
  stopped playing paused : PlaybackState

pub record SpatialFramePlayer (D F : Type 0) : Type 0 where
  pub file : Stream
  pub is_open : Bool
  -- framePositions_ and frameTimestamps_, which have one length.
  pub index : List (ℕ × ℕ)
  pub state : PlaybackState
  pub current_frame_index : ℕ
  pub last_frame_hash : ℕ
  pub running : Bool
  pub frame_queue : List (SpatialFrame D F)

abbrev pub max_queue_size : ℕ
max_queue_size = 3

unfoldable pub new_player : {D F : Type 0} → SpatialFramePlayer D F
new_player = record {
  file = record { bytes = []; position = 0; failed = false };
  is_open = false;
  index = [];
  state = stopped;
  current_frame_index = 0;
  last_frame_hash = 0;
  running = false;
  frame_queue = [];
}

-- `open` of a file that holds `contents`. The open player's `close` waits for the mutex that `open`
-- holds: that call never returns, which is `none`.
unfoldable pub open_player :
    {D F : Type 0} → Bool → Bytes → SpatialFramePlayer D F → Option (SpatialFramePlayer D F × Bool)
open_player can_open contents p =
    if p.is_open
    then none
    else if can_open
    then some (
      record p {
        file = record { bytes = contents; position = 0; failed = false };
        is_open = true;
        index = load_index contents;
      },
      true,
    )
    else some (p, false)

unfoldable pub close_player : {D F : Type 0} → SpatialFramePlayer D F → SpatialFramePlayer D F
close_player p = record p {
  running = false;
  is_open = false;
  index = [];
  state = stopped;
  current_frame_index = 0;
}

-- `std::lower_bound` on timestamps that do not fall: the first that is not less.
unfoldable pub lower_bound : ℕ → List (ℕ × ℕ) → ℕ
lower_bound t [] = 0
lower_bound t ((p, s) ∷ rest) = let n = lower_bound t rest in if ltb s t then n + 1 else 0

unfoldable pub seek : {D F : Type 0} → ℕ → SpatialFramePlayer D F → SpatialFramePlayer D F × Bool
seek t p =
    let i : ℕ = lower_bound t p.index in
    if ltb i (length p.index) then (record p { current_frame_index = i }, true) else (p, false)

unfoldable pub seek_to_frame :
    {D F : Type 0} → ℕ → SpatialFramePlayer D F → SpatialFramePlayer D F × Bool
seek_to_frame i p =
    if ltb i (length p.index) then (record p { current_frame_index = i }, true) else (p, false)

unfoldable pub position_at : ℕ → List (ℕ × ℕ) → Option ℕ
position_at i [] = none
position_at zero ((p, t) ∷ rest) = some p
position_at (suc i) ((p, t) ∷ rest) = position_at i rest

unfoldable pub chars_eq : Bytes → Bytes → Bool
chars_eq [] [] = true
chars_eq [] (d ∷ ds) = false
chars_eq (c ∷ cs) [] = false
chars_eq (c ∷ cs) (d ∷ ds) = c == d && chars_eq cs ds

-- `action_scores[key] = score`, for keys that come in the map's order or are there already.
unfoldable pub set_score : {D : Type 0} → Bytes → D → List (Bytes × D) → List (Bytes × D)
set_score key score [] = (key, score) ∷ []
set_score key score ((k, s) ∷ rest) =
    let more = set_score key score rest in
    if chars_eq k key then (k, score) ∷ rest else (k, s) ∷ more

unfoldable pub set_scores : {D : Type 0} → List (Bytes × D) → List (Bytes × D) → List (Bytes × D)
set_scores scores [] = scores
set_scores scores ((k, s) ∷ rest) = set_scores (set_score k s scores) rest

unfoldable pub asset_from_proto : {D F : Type 0} → AssetPosition D F → AssetPosition D F
asset_from_proto a = record {
  asset_id = a.asset_id;
  asset_name = a.asset_name;
  tag_id = a.tag_id;
  x = a.x;
  y = a.y;
  vx = a.vx;
  vy = a.vy;
  risk_score = a.risk_score;
  state = a.state;
  size = a.size;
  action_scores = set_scores [] a.action_scores;
  top_action = a.top_action;
  top_score = a.top_score;
  predicted_x = a.predicted_x;
  predicted_y = a.predicted_y;
  prediction_confidence = a.prediction_confidence;
}

-- The frame made of a message. The other parts are copied member by member, as in the recorder.
unfoldable pub from_proto : (m : Machine) → ProtoFrame m.D m.F → SpatialFrame m.D m.F
from_proto m p = record (cleared m) {
  timestamp = p.timestamp;
  frame_id = p.frame_id;
  processing_time_ms = p.processing_time_ms;
  is_key_frame = p.is_key_frame;
  assets = map asset_from_proto p.assets;
  heatmap = map cell_to_proto p.heatmap;
  congestion = map zone_to_proto p.congestion;
  decisions = map decision_to_proto p.decisions;
  predictions = map prediction_to_proto p.predictions;
}

module _ (m : Machine) (parse : Bytes → Option (ProtoFrame m.D m.F)) where
  abbrev pub Player : Type 0
  Player = SpatialFramePlayer m.D m.F

  -- The buffer has the payload's size: what was not read of it is zero.
  unfoldable pub fill : ℕ → Bytes → Bytes
  fill zero bs = []
  fill (suc n) [] = 0 ∷ fill n []
  fill (suc n) (b ∷ bs) = b ∷ fill n bs

  -- The checksum and the parser decide on a payload.
  unfoldable pub take_payload :
      FrameRecordHeader → Bytes → Player → Player × Option (SpatialFrame m.D m.F)
  take_payload h buffer p =
      if compute_checksum buffer == h.checksum
      then (elim (parse buffer) [
        | none ↦ (p, none)
        | some f ↦ (record p { last_frame_hash = f.frame_hash }, some (from_proto m f))
      ])
      else (p, none)

  -- The payload that was read into the buffer.
  unfoldable pub take_buffer :
      FrameRecordHeader → Stream × Bytes → Player → Player × Option (SpatialFrame m.D m.F)
  take_buffer h (s, bs) p = take_payload h (fill h.payload_size bs) (record p { file = s })

  unfoldable pub take_header :
      Stream × Option FrameRecordHeader → Player → Player × Option (SpatialFrame m.D m.F)
  take_header (s, none) p = (record p { file = s }, none)
  take_header (s, some h) p = take_buffer h (read h.payload_size s) p

  -- `readFrameAt` of a position, after the test of the index.
  unfoldable pub read_frame_from : ℕ → Player → Player × Option (SpatialFrame m.D m.F)
  read_frame_from position p = take_header (read_header (seekg position p.file)) p

  unfoldable pub read_frame_at : ℕ → Player → Player × Option (SpatialFrame m.D m.F)
  read_frame_at i p = elim (position_at i p.index) [
    | none ↦ (p, none)
    | some position ↦ read_frame_from position p
  ]

  -- `readFrameAt(currentFrameIndex_++, frame)`, after the test.
  unfoldable pub next_frame : Player → Player × Option (SpatialFrame m.D m.F)
  next_frame p =
      if leb (length p.index) p.current_frame_index
      then (p, none)
      else read_frame_at p.current_frame_index
          (record p { current_frame_index = u64 (p.current_frame_index + 1) })

  -- The call that starts the thread, or wakes it up.
  unfoldable pub play : Player → Player
  play p = elim p.state [
    | stopped ↦ record p { state = playing; running = true }
    | playing ↦ p
    | paused ↦ record p { state = playing; running = true }
  ]

  unfoldable pub pause : Player → Player
  pause p = record p { state = paused }

  unfoldable pub stop : Player → Player
  stop p = record p { state = stopped; current_frame_index = 0; frame_queue = [] }

  -- The oldest frames leave the queue until there is room: at most as many rounds as there are frames.
  unfoldable pub make_room : List (SpatialFrame m.D m.F) → List (SpatialFrame m.D m.F)
  make_room [] = []
  make_room (f ∷ fs) =
      let rest = make_room fs in if leb max_queue_size (length (f ∷ fs)) then rest else f ∷ fs

  -- The frame that was read, if any, ends the round.
  unfoldable pub queue_frame : Player × Option (SpatialFrame m.D m.F) → Player
  queue_frame (p, none) = record p { state = stopped }
  queue_frame (p, some f) = record p { frame_queue = snoc p.frame_queue f }

  -- A round of `playbackLoop` that does not wait: only when PLAYING it does something.
  unfoldable pub playback_round : Player → Player
  playback_round p = elim p.state [
    | stopped ↦ p
    | paused ↦ p
    | playing ↦
        if p.running
        then queue_frame (next_frame (record p { frame_queue = make_room p.frame_queue }))
        else p
  ]
