-- ===== src/Core/EpcBuffer.antt =====
-- server/core/epc_buffer.h and .cpp: EPCBuffer, the buffer between the readers and the database.
-- The mutex makes each method one step. Times are `int64_t` milliseconds, here integers without
-- overflow; the counters wrap at 2^64. The unordered map is an association list in its iteration
-- order, which is not specified: a new task comes last. The unordered set is a list.
pub mod Conservation
pub mod Duplicates
pub mod Bounds
mod Examples
use rfidsystem.Prelude.{
  ℕ, ◌+◌, ◌*◌, leb, Bool, true, false, List, [], ◌∷◌, ◌++◌, String, length, snoc, any, u64,
  if◌then◌else◌,
}
use rfidsystem.Prelude.Int.{ℤ, pos, ◌-ℤ◌, ltb_ℤ, eq_ℤ}
use text.Mathlib.Text.{◌==◌ as str_eq}

pub record EpcEntry : Type 0 where
  pub epc : String
  pub task_id : ℤ
  pub timestamp_ms : ℤ
  pub rssi : ℤ
  pub reader_id : String

abbrev pub Buffers : Type 0
Buffers = List (ℤ × List EpcEntry)

pub record EpcBuffer : Type 0 where
  pub task_buffers : Buffers
  pub recent_epcs : List String
  pub last_cleanup_time : ℤ
  pub total_processed : ℕ
  pub total_duplicates : ℕ

abbrev pub max_buffer_size : ℕ
max_buffer_size = 10000

abbrev pub duplicate_window_ms : ℕ
duplicate_window_ms = 1000

unfoldable pub new_buffer : EpcBuffer
new_buffer = record {
  task_buffers = [];
  recent_epcs = [];
  last_cleanup_time = pos 0;
  total_processed = 0;
  total_duplicates = 0;
}

-- The time is not looked at.
unfoldable pub is_duplicate : String → ℤ → EpcBuffer → Bool
is_duplicate epc now b = any (λ e. str_eq e epc) b.recent_epcs

unfoldable pub sum_sizes : Buffers → ℕ
sum_sizes [] = 0
sum_sizes ((t, es) ∷ bs) = length es + sum_sizes bs

unfoldable pub total_size : EpcBuffer → ℕ
total_size b = sum_sizes b.task_buffers

-- `taskBuffers_[task].push_back(entry)`
unfoldable pub push_back : ℤ → EpcEntry → Buffers → Buffers
push_back task e [] = (task, e ∷ []) ∷ []
push_back task e ((t, es) ∷ bs) =
    if eq_ℤ t task then (t, snoc es e) ∷ bs else (t, es) ∷ push_back task e bs

-- `recentEPCs_.insert(epc)`
unfoldable pub insert_recent : String → List String → List String
insert_recent epc recent = if any (λ e. str_eq e epc) recent then recent else epc ∷ recent

-- The entry is stored, and the set of recent EPCs cleared when the last clearing is two windows old.
unfoldable pub store : EpcEntry → EpcBuffer → EpcBuffer
unfolding push_back insert_recent
store entry b =
    let expired : Bool =
      ltb_ℤ (pos (duplicate_window_ms * 2)) (entry.timestamp_ms -ℤ b.last_cleanup_time) in
    record b {
      task_buffers = push_back entry.task_id entry b.task_buffers;
      recent_epcs = if expired then [] else insert_recent entry.epc b.recent_epcs;
      last_cleanup_time = if expired then entry.timestamp_ms else b.last_cleanup_time;
      total_processed = u64 (b.total_processed + 1);
    }

unfoldable pub push : EpcEntry → EpcBuffer → EpcBuffer
push entry b =
    if is_duplicate entry.epc entry.timestamp_ms b
    then record b { total_duplicates = u64 (b.total_duplicates + 1) }
    else if leb max_buffer_size (total_size b)
    then b
    else store entry b

-- `find` and `erase` on the map.
unfoldable pub entries_of : ℤ → Buffers → List EpcEntry
entries_of task [] = []
entries_of task ((t, es) ∷ bs) = if eq_ℤ t task then es else entries_of task bs

unfoldable pub erase : ℤ → Buffers → Buffers
erase task [] = []
erase task ((t, es) ∷ bs) = if eq_ℤ t task then bs else (t, es) ∷ erase task bs

-- After the swap the buffer left in the map is empty, so it is erased.
unfoldable pub flush : ℤ → EpcBuffer → EpcBuffer × List EpcEntry
flush task b =
    (record b { task_buffers = erase task b.task_buffers }, entries_of task b.task_buffers)

unfoldable pub all_entries : Buffers → List EpcEntry
all_entries [] = []
all_entries ((t, es) ∷ bs) = es ++ all_entries bs

unfoldable pub flush_all : EpcBuffer → EpcBuffer × List EpcEntry
unfolding all_entries
flush_all b = (record b { task_buffers = [] }, all_entries b.task_buffers)

unfoldable pub size : ℤ → EpcBuffer → ℕ
size task b = length (entries_of task b.task_buffers)

unfoldable pub empty : EpcBuffer → Bool
empty b = elim b.task_buffers [ [] ↦ true | x ∷ xs ↦ false ]

unfoldable pub clear : ℤ → EpcBuffer → EpcBuffer
clear task b = record b { task_buffers = erase task b.task_buffers }

unfoldable pub clear_all : EpcBuffer → EpcBuffer
clear_all b = record b { task_buffers = []; recent_epcs = [] }

-- A history of calls, with what flushing hands out.
pub data Call : Type 0 where
  pushes : EpcEntry → Call
  flushes clears : ℤ → Call
  flushes_all clears_all : Call

unfoldable pub step : EpcBuffer → Call → EpcBuffer × List EpcEntry
step b (pushes e) = (push e b, [])
step b (flushes t) = flush t b
step b (clears t) = (clear t b, [])
step b flushes_all = flush_all b
step b clears_all = (clear_all b, [])

unfoldable pub run : EpcBuffer → List Call → EpcBuffer × List EpcEntry
run b [] = (b, [])
run b (c ∷ cs) = let (b', out) = step b c in let (b'', later) = run b' cs in (b'', out ++ later)
