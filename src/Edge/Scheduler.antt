-- ===== src/Edge/Scheduler.antt =====
-- edge_runtime/edge_scheduler.h and .cpp: EdgeScheduler, which runs tasks by priority. `std::sort` of the
-- pending tasks, which were sorted before a task was added at their end, is an insertion: it leaves equal
-- tasks in some order, here in that of their arrival.
pub mod Order
pub mod Ticks
mod Examples
use rfidsystem.Prelude.{
  ℕ, zero, suc, ◌+◌, ◌==◌, ltb, Bool, true, false, not, ◌&&◌, Option, none, some, List, [], ◌∷◌,
  length, snoc, keep, if◌then◌else◌,
}

pub data EdgeTaskType : Type 0 where
  localization kalman_update spatial_filter local_ai data_caching sync_pending : EdgeTaskType

pub record EdgeTask : Type 0 where
  pub task_id : ℕ
  pub type : EdgeTaskType
  pub priority : ℕ
  pub deadline_ms : ℕ
  pub running : Bool
  pub start_time : ℕ

pub record EdgeScheduler : Type 0 where
  pub pending_tasks : List EdgeTask
  pub running_tasks : List EdgeTask
  pub max_concurrent_tasks : ℕ

unfoldable pub new_scheduler : EdgeScheduler
new_scheduler = record { pending_tasks = []; running_tasks = []; max_concurrent_tasks = 4 }

-- `initialize` and `shutdown`
unfoldable pub clear : EdgeScheduler → EdgeScheduler
clear s = record s { pending_tasks = []; running_tasks = [] }

-- The comparison of the sort.
unfoldable pub before : EdgeTask → EdgeTask → Bool
before a b =
    if a.priority == b.priority then ltb a.deadline_ms b.deadline_ms else ltb b.priority a.priority

unfoldable pub insert : EdgeTask → List EdgeTask → List EdgeTask
insert t [] = t ∷ []
insert t (u ∷ us) = let rest = insert t us in if before t u then t ∷ u ∷ us else u ∷ rest

unfoldable pub schedule_task : EdgeTaskType → ℕ → ℕ → EdgeScheduler → EdgeScheduler × ℕ
schedule_task type priority deadline_ms s =
    let id : ℕ = length s.pending_tasks + length s.running_tasks + 1 in
    let task : EdgeTask = record {
      task_id = id;
      type = type;
      priority = priority;
      deadline_ms = deadline_ms;
      running = false;
      start_time = 0;
    } in
    (record s { pending_tasks = insert task s.pending_tasks }, id)

unfoldable pub execute_next_task : EdgeScheduler → EdgeScheduler
execute_next_task s = elim s.pending_tasks [
  | [] ↦ s
  | t ∷ rest ↦ record s {
    pending_tasks = rest;
    running_tasks = snoc s.running_tasks (record t { running = true; start_time = 0 });
  }
]

-- The loop of `tick`, on fuel: each round takes a pending task.
unfoldable pub fill_loop : ℕ → EdgeScheduler → EdgeScheduler
fill_loop zero s = s
fill_loop (suc fuel) s =
    let rest = fill_loop fuel (execute_next_task s) in
    if ltb (length s.running_tasks) s.max_concurrent_tasks && not (length s.pending_tasks == 0)
    then rest
    else s

-- The second loop drops the tasks that do not run.
unfoldable pub tick : EdgeScheduler → EdgeScheduler
tick s =
    let filled : EdgeScheduler = fill_loop (length s.pending_tasks) s in
    record filled { running_tasks = keep (λ t. t.running) filled.running_tasks }

-- The first task of the id, if there is one, with what becomes of it.
unfoldable pub erase_first : ℕ → List EdgeTask → Option (List EdgeTask)
erase_first id [] = none
erase_first id (t ∷ ts) =
    let rest = erase_first id ts in
    if t.task_id == id then some ts else elim rest [ none ↦ none | some us ↦ some (t ∷ us) ]

unfoldable pub stop_first : ℕ → List EdgeTask → Option (List EdgeTask)
stop_first id [] = none
stop_first id (t ∷ ts) =
    let rest = stop_first id ts in
    if t.task_id == id
    then some (record t { running = false } ∷ ts)
    else elim rest [ none ↦ none | some us ↦ some (t ∷ us) ]

unfoldable pub cancel_task : ℕ → EdgeScheduler → EdgeScheduler × Bool
cancel_task id s = elim (erase_first id s.pending_tasks) [
  | some ts ↦ (record s { pending_tasks = ts }, true)
  | none ↦ elim (stop_first id s.running_tasks) [
    | some ts ↦ (record s { running_tasks = ts }, true)
    | none ↦ (s, false)
  ]
]

unfoldable pub running_there : ℕ → List EdgeTask → Bool
running_there id [] = false
running_there id (t ∷ ts) =
    let rest = running_there id ts in if t.task_id == id then t.running else rest

unfoldable pub is_task_running : ℕ → EdgeScheduler → Bool
is_task_running id s = running_there id s.running_tasks

unfoldable pub get_pending_task_count : EdgeScheduler → ℕ
get_pending_task_count s = length s.pending_tasks

unfoldable pub set_max_concurrent_tasks : ℕ → EdgeScheduler → EdgeScheduler
set_max_concurrent_tasks max s = record s { max_concurrent_tasks = max }
