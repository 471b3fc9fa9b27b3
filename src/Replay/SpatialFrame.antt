-- ===== src/Replay/SpatialFrame.antt =====
-- server/runtime/spatial_frame.h: the frame of the spatial runtime, and the message of
-- server/runtime/protocol/spatial_frame.proto for it. `double` and `float` are the parameters `D` and
-- `F`. The structs of a frame's parts and their messages have the same fields, and share a record here.
-- A `std::map` is the list of its pairs in the order of the keys.
pub mod Hash
use rfidsystem.Prelude.{ℕ, ◌+◌, Bool, false, List, [], length}
use rfidsystem.Prelude.Int.{ℤ, pos}
use rfidsystem.Replay.Bytes.{Bytes}

-- What the program takes from the machine: the bits of a `double` and of a `float`, and `std::hash` of
-- the types of integers.
pub record Machine : Type 1 where
  pub D : Type 0
  pub F : Type 0
  pub zero_double : D
  pub double_bits : D → ℕ
  pub float_bits : F → ℕ
  pub std_hash_u64 : ℕ → ℕ
  pub std_hash_u32 : ℕ → ℕ
  pub std_hash_i64 : ℤ → ℕ
  pub std_hash_i32 : ℤ → ℕ

pub record AssetPosition (D F : Type 0) : Type 0 where
  pub asset_id : ℤ
  pub asset_name : Bytes
  pub tag_id : Bytes
  pub x : D
  pub y : D
  pub vx : D
  pub vy : D
  pub risk_score : D
  pub state : ℤ
  pub size : F
  pub action_scores : List (Bytes × D)
  pub top_action : Bytes
  pub top_score : D
  pub predicted_x : D
  pub predicted_y : D
  pub prediction_confidence : D

pub record HeatCell (F : Type 0) : Type 0 where
  pub x : ℤ
  pub y : ℤ
  pub value : F

pub record CongestionZone (F : Type 0) : Type 0 where
  pub id : ℤ
  pub name : Bytes
  pub x : F
  pub y : F
  pub radius : F
  pub density : F
  pub asset_count : ℤ
  pub level : Bytes

pub record DecisionPoint (D : Type 0) : Type 0 where
  pub asset_id : ℤ
  pub action : Bytes
  pub confidence : D
  pub expected_reward : D
  pub reason : Bytes

pub record PathPrediction (D : Type 0) : Type 0 where
  pub asset_id : ℤ
  pub x : D
  pub y : D
  pub confidence : D
  pub timestamp : ℤ

-- `reason` is the array of 128 characters.
pub record DecisionOverlay (F : Type 0) : Type 0 where
  pub asset_id : ℕ
  pub x : F
  pub y : F
  pub action : ℕ
  pub confidence : F
  pub missing_risk : F
  pub abnormal_risk : F
  pub inactivity_risk : F
  pub reason : Bytes
  pub timestamp : ℕ

pub record SpatialFrame (D F : Type 0) : Type 0 where
  pub timestamp : ℤ
  pub frame_id : ℕ
  pub assets : List (AssetPosition D F)
  pub heatmap : List (HeatCell F)
  pub congestion : List (CongestionZone F)
  pub decisions : List (DecisionPoint D)
  pub predictions : List (PathPrediction D)
  pub overlays : List (DecisionOverlay F)
  pub processing_time_ms : D
  pub is_key_frame : Bool
  pub decision_hash : ℕ
  pub collect_ms : D
  pub heatmap_ms : D
  pub congestion_ms : D
  pub decision_ms : D
  pub overlay_ms : D
  pub upload_ms : D
  pub render_ms : D

-- `clear()` sets every member, so it does not matter what the frame was.
unfoldable pub cleared : (m : Machine) → SpatialFrame m.D m.F
cleared m = record {
  timestamp = pos 0;
  frame_id = 0;
  assets = [];
  heatmap = [];
  congestion = [];
  decisions = [];
  predictions = [];
  overlays = [];
  processing_time_ms = m.zero_double;
  is_key_frame = false;
  decision_hash = 0;
  collect_ms = m.zero_double;
  heatmap_ms = m.zero_double;
  congestion_ms = m.zero_double;
  decision_ms = m.zero_double;
  overlay_ms = m.zero_double;
  upload_ms = m.zero_double;
  render_ms = m.zero_double;
}

unfoldable pub total_size : {D F : Type 0} → SpatialFrame D F → ℕ
total_size f =
    length f.assets
    + length f.heatmap
    + length f.congestion
    + length f.decisions
    + length f.predictions
    + length f.overlays

-- The message `spatial::SpatialFrame`.
pub record ProtoFrame (D F : Type 0) : Type 0 where
  pub timestamp : ℤ
  pub frame_id : ℕ
  pub assets : List (AssetPosition D F)
  pub heatmap : List (HeatCell F)
  pub congestion : List (CongestionZone F)
  pub decisions : List (DecisionPoint D)
  pub predictions : List (PathPrediction D)
  pub processing_time_ms : D
  pub is_key_frame : Bool
  pub frame_hash : ℕ
