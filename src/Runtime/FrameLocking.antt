-- ===== src/Runtime/FrameLocking.antt =====
-- server/runtime/ai_frame_locking.h and .cpp: which AI result belongs to which frame.
-- `float` is a parameter: `latency` is the computation from the microseconds, and `sum`, `divide` and
-- `zero_latency` those of the average. The steady clock's reading `now` is in microseconds, and does
-- not go back; `wall` is the system clock's reading in milliseconds.
pub mod Locks
pub mod Bindings
mod Examples
use rfidsystem.Prelude.{
  ℕ, ◌+◌, ◌-◌, ◌/◌, ◌==◌, ltb, Bool, true, false, not, Option, none, some, List, [], ◌∷◌, snoc,
  keep, tally, u64, if◌then◌else◌,
}

pub record Floats : Type 1 where
  pub F : Type 0
  pub zero_latency : F
  pub latency : ℕ → F
  pub sum : F → F → F
  pub divide : F → ℕ → F

pub record AiFrameBinding (F : Type 0) : Type 0 where
  pub frame_id : ℕ
  pub ai_result_id : ℕ
  pub latency_ms : F
  pub timestamp : ℕ
  pub is_bound : Bool

pub record FrameLock (F : Type 0) : Type 0 where
  pub frame_id : ℕ
  pub lock_id : ℕ
  pub lock_time : ℕ
  pub binding : AiFrameBinding F

pub record AiFrameLocking (F : Type 0) : Type 0 where
  pub locks : List (FrameLock F)
  pub next_lock_id : ℕ  -- std::atomic<uint64_t>

unfoldable pub new_binding : (fl : Floats) → AiFrameBinding fl.F
new_binding fl = record {
  frame_id = 0;
  ai_result_id = 0;
  latency_ms = fl.zero_latency;
  timestamp = 0;
  is_bound = false;
}

unfoldable pub new_locking : {F : Type 0} → AiFrameLocking F
new_locking = record { locks = []; next_lock_id = 1 }

unfoldable pub initialize : {F : Type 0} → AiFrameLocking F → AiFrameLocking F
initialize a = record a { next_lock_id = 1 }

unfoldable pub shutdown : {F : Type 0} → AiFrameLocking F → AiFrameLocking F
shutdown a = record a { locks = [] }

unfoldable pub acquire_frame_lock :
    (fl : Floats) → ℕ → ℕ → AiFrameLocking fl.F → AiFrameLocking fl.F × ℕ
unfolding new_binding
acquire_frame_lock fl frame now a =
    let lock : FrameLock fl.F = record {
      frame_id = frame;
      lock_id = a.next_lock_id;
      lock_time = now;
      binding = record (new_binding fl) { frame_id = frame; is_bound = false };
    } in
    (
      record a { locks = snoc a.locks lock; next_lock_id = u64 (a.next_lock_id + 1) },
      a.next_lock_id,
    )

-- `std::find_if` for a frame.
unfoldable pub find_lock : {F : Type 0} → ℕ → List (FrameLock F) → Option (FrameLock F)
find_lock frame [] = none
find_lock frame (l ∷ ls) =
    let rest = find_lock frame ls in if l.frame_id == frame then some l else rest

-- The assignments to the binding of the lock that was found.
unfoldable pub bind_lock : (fl : Floats) → ℕ → ℕ → ℕ → FrameLock fl.F → FrameLock fl.F
bind_lock fl result now wall l = record l {
  binding = record (l.binding) {
    ai_result_id = result;
    latency_ms = fl.latency (now - l.lock_time);
    timestamp = wall;
    is_bound = true;
  };
}

unfoldable pub bind_first :
    (fl : Floats) → ℕ → ℕ → ℕ → ℕ → List (FrameLock fl.F) → List (FrameLock fl.F) × Bool
bind_first fl frame result now wall [] = ([], false)
bind_first fl frame result now wall (l ∷ ls) =
    let rest = bind_first fl frame result now wall ls in
    if l.frame_id == frame
    then (bind_lock fl result now wall l ∷ ls, true)
    else (l ∷ rest.0, rest.1)

unfoldable pub bind_ai_result :
    (fl : Floats) → ℕ → ℕ → ℕ → ℕ → AiFrameLocking fl.F → AiFrameLocking fl.F × Bool
bind_ai_result fl frame result now wall a =
    let (ls, ok) = bind_first fl frame result now wall a.locks in (record a { locks = ls }, ok)

unfoldable pub is_frame_locked : {F : Type 0} → ℕ → AiFrameLocking F → Bool
is_frame_locked frame a = elim (find_lock frame a.locks) [ none ↦ false | some l ↦ true ]

unfoldable pub get_binding : (fl : Floats) → ℕ → AiFrameLocking fl.F → AiFrameBinding fl.F
get_binding fl frame a = elim (find_lock frame a.locks) [
  | none ↦ new_binding fl
  | some l ↦ l.binding
]

unfoldable pub release_frame_lock : {F : Type 0} → ℕ → AiFrameLocking F → AiFrameLocking F
release_frame_lock frame a = record a { locks = keep (λ l. not (l.frame_id == frame)) a.locks }

-- The age is in whole milliseconds.
unfoldable pub cleanup_old_bindings : {F : Type 0} → ℕ → ℕ → AiFrameLocking F → AiFrameLocking F
cleanup_old_bindings max_age_ms now a = record a {
  locks = keep (λ l. not (ltb max_age_ms ((now - l.lock_time) / 1000))) a.locks;
}

unfoldable pub get_active_binding_count : {F : Type 0} → AiFrameLocking F → ℕ
get_active_binding_count a = tally (λ l. l.binding.is_bound) a.locks

-- The loop over the locks, from the sum and the count so far.
unfoldable pub sum_latencies : (fl : Floats) → fl.F → ℕ → List (FrameLock fl.F) → fl.F × ℕ
sum_latencies fl acc n [] = (acc, n)
sum_latencies fl acc n (l ∷ ls) =
    let acc' : fl.F = if l.binding.is_bound then fl.sum acc l.binding.latency_ms else acc in
    let n' : ℕ = if l.binding.is_bound then n + 1 else n in sum_latencies fl acc' n' ls

unfoldable pub get_average_latency : (fl : Floats) → AiFrameLocking fl.F → fl.F
get_average_latency fl a =
    let (total, n) = sum_latencies fl fl.zero_latency 0 a.locks in
    if ltb 0 n then fl.divide total n else fl.zero_latency

-- A history of calls without `initialize`.
pub data Call : Type 0 where
  acquires : ℕ → ℕ → Call
  releases : ℕ → Call
  binds : ℕ → ℕ → ℕ → ℕ → Call
  cleans : ℕ → ℕ → Call
  shuts_down : Call

unfoldable pub step : (fl : Floats) → AiFrameLocking fl.F → Call → AiFrameLocking fl.F
step fl a (acquires frame now) = (acquire_frame_lock fl frame now a).0
step fl a (releases frame) = release_frame_lock frame a
step fl a (binds frame result now wall) = (bind_ai_result fl frame result now wall a).0
step fl a (cleans max_age now) = cleanup_old_bindings max_age now a
step fl a shuts_down = shutdown a

unfoldable pub run : (fl : Floats) → AiFrameLocking fl.F → List Call → AiFrameLocking fl.F
run fl a [] = a
run fl a (c ∷ cs) = run fl (step fl a c) cs
