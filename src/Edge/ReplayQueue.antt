-- ===== src/Edge/ReplayQueue.antt =====
-- edge_runtime/offline_replay_queue.h and .cpp: OfflineReplayQueue, the frames kept while there is no
-- connection. `tick` does nothing.
mod Examples
use rfidsystem.Prelude.{ℕ, ◌+◌, Option, none, some, List, [], ◌∷◌, length, snoc}
use rfidsystem.Replay.Bytes.{Bytes}

pub record ReplayEntry : Type 0 where
  pub entry_id : ℕ
  pub timestamp : ℕ
  pub frame_id : ℕ
  pub content : Bytes

-- queue_
abbrev pub Queue : Type 0
Queue = List ReplayEntry

-- `initialize`, `shutdown` and `clear`
unfoldable pub clear : Queue → Queue
clear q = []

unfoldable pub enqueue : ℕ → ℕ → Bytes → Queue → Queue
enqueue timestamp frame_id content q = snoc q (record {
  entry_id = length q + 1;
  timestamp = timestamp;
  frame_id = frame_id;
  content = content;
})

unfoldable pub dequeue : Queue → Queue × Option ReplayEntry
dequeue [] = ([], none)
dequeue (e ∷ rest) = (rest, some e)

unfoldable pub peek : Queue → Option ReplayEntry
peek [] = none
peek (e ∷ rest) = some e

-- The loop dequeues until the queue is empty, and does nothing with the entries.
unfoldable pub replay_all : Queue → Queue
replay_all [] = []
replay_all (e ∷ rest) = replay_all rest
