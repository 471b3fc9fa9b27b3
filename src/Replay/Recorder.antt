-- ===== src/Replay/Recorder.antt =====
-- server/runtime/spatial_frame_recorder.h and .cpp: SpatialFrameRecorder, which appends frames to a file.
-- A file is its bytes. Protocol Buffers are not part of the repository: `serialize` is a parameter.
-- The mutex makes `append` one step. `open` of an open recorder calls `close`, which waits for the
-- mutex that `open` holds: `none` is a call that never returns. Writes are taken to succeed.
use rfidsystem.Prelude.{
  ℕ, ◌+◌, ◌%◌, Bool, true, false, Option, none, some, List, [], ◌∷◌, ◌++◌, map, length, u64,
  if◌then◌else◌,
}
use rfidsystem.Replay.Bytes.{Bytes, to_bytes, compute_checksum, u32_mod, int_to_u64}
use rfidsystem.Replay.SpatialFrame.{
  Machine, AssetPosition, HeatCell, CongestionZone, DecisionPoint, PathPrediction, SpatialFrame,
  ProtoFrame,
}
use rfidsystem.Replay.SpatialFrame.Hash.{hash}

pub record FrameRecordHeader : Type 0 where
  pub magic : ℕ
  pub timestamp : ℕ
  pub payload_size : ℕ
  pub checksum : ℕ

-- FrameRecordHeader::MAGIC, "SPATIALF"
abbrev pub magic_number : ℕ
magic_number = 0x5350415449414C46

abbrev pub header_size : ℕ
header_size = 24

-- The header in memory: four members without a gap.
unfoldable pub header_bytes : FrameRecordHeader → Bytes
header_bytes h =
    to_bytes 8 h.magic
    ++ (to_bytes 8 h.timestamp ++ (to_bytes 4 h.payload_size ++ to_bytes 4 h.checksum))

pub record SpatialFrameRecorder : Type 0 where
  pub file : Bytes
  pub total_frames : ℕ
  pub total_bytes : ℕ
  pub opened : Bool

unfoldable pub new_recorder : SpatialFrameRecorder
new_recorder = record { file = []; total_frames = 0; total_bytes = 0; opened = false }

-- `open` of a path: whether it can be opened, and what the file holds already.
unfoldable pub open_recorder :
    Bool → Bytes → SpatialFrameRecorder → Option (SpatialFrameRecorder × Bool)
open_recorder can_open contents r =
    if r.opened
    then none
    else if can_open
    then some (record r { file = contents; opened = true }, true)
    else some (r, false)

unfoldable pub close : SpatialFrameRecorder → SpatialFrameRecorder
close r = if r.opened then record r { opened = false } else r

-- The map's pairs are set one after the other in the message's map, where each key is new.
unfoldable pub put_scores {ℓ} : {D : Type ℓ} → List (Bytes × D) → List (Bytes × D)
put_scores [] = []
put_scores ((action, score) ∷ rest) = (action, score) ∷ put_scores rest

unfoldable pub asset_to_proto : {D F : Type 0} → AssetPosition D F → AssetPosition D F
asset_to_proto a = record {
  asset_id = a.asset_id;
  asset_name = a.asset_name;
  tag_id = a.tag_id;
  x = a.x;
  y = a.y;
  vx = a.vx;
  vy = a.vy;
  risk_score = a.risk_score;
  state = a.state;
  size = a.size;
  action_scores = put_scores a.action_scores;
  top_action = a.top_action;
  top_score = a.top_score;
  predicted_x = a.predicted_x;
  predicted_y = a.predicted_y;
  prediction_confidence = a.prediction_confidence;
}

unfoldable pub cell_to_proto : {F : Type 0} → HeatCell F → HeatCell F
cell_to_proto c = record { x = c.x; y = c.y; value = c.value }

unfoldable pub zone_to_proto : {F : Type 0} → CongestionZone F → CongestionZone F
zone_to_proto z = record {
  id = z.id;
  name = z.name;
  x = z.x;
  y = z.y;
  radius = z.radius;
  density = z.density;
  asset_count = z.asset_count;
  level = z.level;
}

unfoldable pub decision_to_proto : {D : Type 0} → DecisionPoint D → DecisionPoint D
decision_to_proto d = record {
  asset_id = d.asset_id;
  action = d.action;
  confidence = d.confidence;
  expected_reward = d.expected_reward;
  reason = d.reason;
}

unfoldable pub prediction_to_proto : {D : Type 0} → PathPrediction D → PathPrediction D
prediction_to_proto p = record {
  asset_id = p.asset_id;
  x = p.x;
  y = p.y;
  confidence = p.confidence;
  timestamp = p.timestamp;
}

module _ (m : Machine) where
  -- What `append` puts into the message: neither the overlays, nor the decision hash, nor the times of
  -- the frame's budget.
  unfoldable pub to_proto : SpatialFrame m.D m.F → ProtoFrame m.D m.F
  to_proto f = record {
    timestamp = f.timestamp;
    frame_id = f.frame_id;
    assets = map asset_to_proto f.assets;
    heatmap = map cell_to_proto f.heatmap;
    congestion = map zone_to_proto f.congestion;
    decisions = map decision_to_proto f.decisions;
    predictions = map prediction_to_proto f.predictions;
    processing_time_ms = f.processing_time_ms;
    is_key_frame = f.is_key_frame;
    frame_hash = hash m f;
  }

module _ (m : Machine) (serialize : ProtoFrame m.D m.F → Bytes) where
  -- The header and the payload that are written for a frame.
  unfoldable pub header_of : SpatialFrame m.D m.F → FrameRecordHeader
  header_of f =
      let serialized : Bytes = serialize (to_proto m f) in
      record {
        magic = magic_number;
        timestamp = int_to_u64 f.timestamp;
        payload_size = length serialized % u32_mod;
        checksum = compute_checksum serialized;
      }

  unfoldable pub record_bytes : SpatialFrame m.D m.F → Bytes
  record_bytes f = header_bytes (header_of f) ++ serialize (to_proto m f)

  unfoldable pub append : SpatialFrame m.D m.F → SpatialFrameRecorder → SpatialFrameRecorder
  append f r =
      if r.opened
      then record r {
        file = r.file ++ record_bytes f;
        total_frames = u64 (r.total_frames + 1);
        total_bytes = u64 (r.total_bytes + header_size + length (serialize (to_proto m f)));
      }
      else r
