-- ===== src/Runtime/StateMachine/Permissions.antt =====
-- What each state of server/runtime/runtime_state_machine.cpp permits.
use rfidsystem.Prelude.{◌||◌, not, ◌≡◌, true, arith}
use rfidsystem.Runtime.StateMachine.{
  RuntimeState, is_healthy, can_run_ai, can_render_gpu, can_schedule_frame, can_update_policy,
  can_write_decision,
}

-- In every state, running AI, updating the policy and writing decisions are permitted together, and
-- exactly when the state is healthy; each of them is permitted only where the GPU may render, and
-- rendering only where frames may be scheduled.
pub permissions_ordered :
    (s : RuntimeState)
    → (can_run_ai s ≡ is_healthy s)
      × (can_update_policy s ≡ is_healthy s)
      × (can_write_decision s ≡ is_healthy s)
      × ((not (can_run_ai s) || can_render_gpu s) ≡ true)
      × ((not (can_render_gpu s) || can_schedule_frame s) ≡ true)
unfolding can_run_ai is_healthy can_update_policy can_write_decision can_render_gpu
    can_schedule_frame
permissions_ordered s = ground arith
