-- ===== src/Replay.antt =====
-- server/runtime: the frames of the spatial runtime, and the file in which they are recorded and
-- from which they are played.
pub mod Bytes
pub mod SpatialFrame
pub mod Recorder
pub mod Stream
pub mod Player
