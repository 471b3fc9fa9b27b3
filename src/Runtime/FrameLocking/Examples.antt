-- ===== src/Runtime/FrameLocking/Examples.antt =====
-- The locks of frames at concrete calls; latencies are in microseconds.
use rfidsystem.Prelude.{
  ℕ, ◌+◌, ◌/◌, ◌≤◌, ◌≡◌, refl, true, false, List, [], ◌∷◌, arith, if◌then◌else◌,
}
use rfidsystem.Runtime.FrameLocking.{
  Floats, AiFrameLocking, new_locking, initialize, acquire_frame_lock, find_lock, bind_lock,
  bind_first, bind_ai_result, is_frame_locked, get_binding, release_frame_lock,
  cleanup_old_bindings, get_active_binding_count, sum_latencies, get_average_latency, Call,
  acquires, binds, step, run,
}
use rfidsystem.Runtime.FrameLocking.Locks.{numbered, locks_told_apart}
use rfidsystem.Runtime.FrameLocking.Bindings.{bind_settles, release_settles}

abbrev micros : Floats
micros = record {
  F = ℕ;
  zero_latency = 0;
  latency = λ u. u;
  sum = λ a b. a + b;
  divide = λ a n. a / n;
}

abbrev calls : List Call
calls =
    acquires 7 1000
    ∷ acquires 8 2000
    ∷ acquires 7 3000
    ∷ binds 7 51 4000 90
    ∷ binds 8 52 7000 91
    ∷ []

calls-run :
    ((get_binding micros 7 (run micros new_locking calls)).latency_ms ≡ 3000)
    × (get_active_binding_count (run micros new_locking calls) ≡ 2)
    × (get_average_latency micros (run micros new_locking calls) ≡ 4000)
    × (is_frame_locked 7 (cleanup_old_bindings 5 7500 (run micros new_locking calls)) ≡ true)
unfolding get_binding run step new_locking acquire_frame_lock bind_ai_result bind_first bind_lock
    find_lock get_active_binding_count get_average_latency sum_latencies is_frame_locked
    cleanup_old_bindings
calls-run = (refl, refl, refl, refl)

-- `initialize` keeps the locks, and starts their numbers again.
numbers_again :
    numbered 1 (acquire_frame_lock micros 9 0 (initialize (run micros new_locking calls))).0.locks
    ≡ 2
unfolding run step new_locking initialize acquire_frame_lock bind_ai_result bind_first bind_lock
numbers_again = refl

locks_told_apart_example : numbered 2 (run micros new_locking calls).locks ≤ 1
locks_told_apart_example = locks_told_apart micros calls 2 (omega arith)

abbrev locked : AiFrameLocking ℕ
locked = run micros new_locking calls

bind_settles_example :
    let r = bind_ai_result micros 7 60 9000 95 locked in
    (r.1 ≡ is_frame_locked 7 locked)
    × ((get_binding micros 7 r.0).is_bound ≡ is_frame_locked 7 locked)
    × ((get_binding micros 7 r.0).ai_result_id ≡ (if is_frame_locked 7 locked then 60 else 0))
    × (get_binding micros 8 r.0 ≡ get_binding micros 8 locked)
bind_settles_example = bind_settles micros 7 8 60 9000 95 locked (λ e. ground arith)

release-settled :
    let b = release_frame_lock 7 locked in
    (is_frame_locked 7 b ≡ false)
    × (is_frame_locked 8 b ≡ is_frame_locked 8 locked)
    × (get_binding micros 8 b ≡ get_binding micros 8 locked)
release-settled = release_settles micros 7 8 locked (λ e. ground arith)
