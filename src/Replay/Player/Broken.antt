-- ===== src/Replay/Player/Broken.antt =====
-- What server/runtime/spatial_frame_player.cpp plays after a read that hit the end of the file.
use rfidsystem.Prelude.{ℕ, ◌≡◌, true, Option, none, List, [], ◌∷◌, drop}
use rfidsystem.Replay.Bytes.{Bytes}
use rfidsystem.Replay.SpatialFrame.{Machine, SpatialFrame, ProtoFrame}
use rfidsystem.Replay.Stream.{Stream}
use rfidsystem.Replay.Player.{
  seek, seek_to_frame, Player, read_frame_at, next_frame, play, pause, stop, playback_round,
  close_player,
}

module _ (m : Machine) (parse : Bytes → Option (ProtoFrame m.D m.F)) where
  -- The calls of a client, but for opening a file, and the rounds of the playback thread.
  pub data Call : Type 0 where
    nexts plays pauses stops closes rounds : Call
    reads seeks seeks_to : ℕ → Call

  -- A call, with the frame that it gives.
  unfoldable pub step : Call → Player m parse → Player m parse × Option (SpatialFrame m.D m.F)
  step nexts p = next_frame m parse p
  step plays p = (play m parse p, none)
  step pauses p = (pause m parse p, none)
  step stops p = (stop m parse p, none)
  step closes p = (close_player p, none)
  step rounds p = (playback_round m parse p, none)
  step (reads i) p = read_frame_at m parse i p
  step (seeks t) p = ((seek t p).0, none)
  step (seeks_to i) p = ((seek_to_frame i p).0, none)

  unfoldable pub run :
      List Call → Player m parse → Player m parse × List (Option (SpatialFrame m.D m.F))
  run [] p = (p, [])
  run (c ∷ cs) p = let (q, o) = step c p in let (r, later) = run cs q in (r, o ∷ later)

  -- The queue has lost frames from its front, or none.
  abbrev pub IsShortened : Player m parse → Player m parse → Type 0
  IsShortened p q = (n : ℕ) × (q.frame_queue ≡ drop n p.frame_queue)

  -- A call leaves the flag set, gives no frame, and puts none into the queue.
  abbrev IsSilent : Player m parse → Player m parse × Option (SpatialFrame m.D m.F) → Type 0
  IsSilent p (q, o) = (q.file.failed ≡ true) × (o ≡ none) × IsShortened p q
