-- ===== src/Runtime/Recovery.antt =====
-- server/runtime/runtime_recovery_engine.h and .cpp: the engine that answers a failure by an action.
-- A recovery callback is code of other components: a function into what it does, return or throw.
-- A start or end callback is known by a number, and what it throws is swallowed. The calls that the
-- engine makes are listed in order.
pub mod Decisions
pub mod Execution
mod Examples
use rfidsystem.Prelude.{
  ℕ, ◌+◌, Bool, true, false, List, [], ◌∷◌, ◌++◌, map, String, snoc, u64, if◌then◌else◌,
}
use rfidsystem.Runtime.FailureBus.{
  FailureType, FailureEvent, frame_hash_mismatch, gpu_overrun, ai_convergence_collapse,
  replay_desync, factory_desync, policy_corruption, memory_leak_detected, network_timeout, unknown,
}

-- `none_needed` is RecoveryAction::NONE.
pub data RecoveryAction : Type 0 where
  none_needed restart_ai reset_gpu rollback_frame isolate_factory : RecoveryAction
  switch_to_safe_policy reduce_frame_rate disable_overlay restart_subsystem : RecoveryAction
  emergency_stop : RecoveryAction

pub data Outcome : Type 0 where
  returned : Bool → Outcome
  threw : Outcome

pub record RecoveryCallback : Type 0 where
  pub id : ℕ
  pub answer : RecoveryAction → Outcome

pub data Event : Type 0 where
  started : ℕ → RecoveryAction → String → Event
  asked : ℕ → RecoveryAction → Event
  ended : ℕ → RecoveryAction → Bool → Event

pub record RuntimeRecoveryEngine : Type 0 where
  pub in_recovery : Bool
  pub recovery_count : ℕ  -- std::atomic<size_t>
  pub last_action : RecoveryAction
  pub last_action_reason : String
  pub recovery_callbacks : List RecoveryCallback
  pub start_callbacks : List ℕ
  pub end_callbacks : List ℕ

unfoldable pub new_engine : RuntimeRecoveryEngine
new_engine = record {
  in_recovery = false;
  recovery_count = 0;
  last_action = none_needed;
  last_action_reason = "";
  recovery_callbacks = [];
  start_callbacks = [];
  end_callbacks = [];
}

unfoldable pub initialize : RuntimeRecoveryEngine → RuntimeRecoveryEngine
initialize r = record r {
  in_recovery = false;
  recovery_count = 0;
  last_action = none_needed;
  last_action_reason = "";
}

unfoldable pub shutdown : RuntimeRecoveryEngine → RuntimeRecoveryEngine
shutdown r = record r {
  in_recovery = false;
  recovery_callbacks = [];
  start_callbacks = [];
  end_callbacks = [];
}

unfoldable pub register_recovery_callback :
    RecoveryCallback → RuntimeRecoveryEngine → RuntimeRecoveryEngine
register_recovery_callback c r = record r { recovery_callbacks = snoc r.recovery_callbacks c }

unfoldable pub register_recovery_start_callback : ℕ → RuntimeRecoveryEngine → RuntimeRecoveryEngine
register_recovery_start_callback c r = record r { start_callbacks = snoc r.start_callbacks c }

unfoldable pub register_recovery_end_callback : ℕ → RuntimeRecoveryEngine → RuntimeRecoveryEngine
register_recovery_end_callback c r = record r { end_callbacks = snoc r.end_callbacks c }

unfoldable pub map_failure_to_action : FailureType → RecoveryAction
map_failure_to_action gpu_overrun = reset_gpu
map_failure_to_action ai_convergence_collapse = switch_to_safe_policy
map_failure_to_action frame_hash_mismatch = rollback_frame
map_failure_to_action replay_desync = rollback_frame
map_failure_to_action factory_desync = isolate_factory
map_failure_to_action memory_leak_detected = reduce_frame_rate
map_failure_to_action policy_corruption = switch_to_safe_policy
map_failure_to_action network_timeout = restart_subsystem
map_failure_to_action unknown = none_needed
map_failure_to_action _ = none_needed

unfoldable pub decide : {Double : Type 0} → FailureEvent Double → RecoveryAction
unfolding map_failure_to_action
decide event = map_failure_to_action event.type

unfoldable pub begin_recovery :
    RecoveryAction → String → RuntimeRecoveryEngine → RuntimeRecoveryEngine × List Event
begin_recovery action reason r = (
  record r { in_recovery = true; last_action = action; last_action_reason = reason },
  map (λ c. started c action reason) r.start_callbacks,
)

unfoldable pub end_recovery : Bool → RuntimeRecoveryEngine → RuntimeRecoveryEngine × List Event
end_recovery success r = (
  record r {
    in_recovery = false;
    recovery_count = if success then u64 (r.recovery_count + 1) else r.recovery_count;
  },
  map (λ c. ended c r.last_action success) r.end_callbacks,
)

-- The loop of `execute`: whether every callback returned true, and the calls made, which stop at the
-- first callback that returns false or throws.
unfoldable pub ask_all : List RecoveryCallback → RecoveryAction → Bool × List Event
ask_all [] action = (true, [])
ask_all (c ∷ cs) action =
    let rest = ask_all cs action in
    elim (c.answer action) [
      | returned ok ↦
          if ok then (rest.0, asked c.id action ∷ rest.1) else (false, asked c.id action ∷ [])
      | threw ↦ (false, asked c.id action ∷ [])
    ]

-- NONE is the only action on which `execute` returns at once.
abbrev pub is_none : RecoveryAction → Bool
is_none none_needed = true
is_none _ = false

unfoldable pub execute :
    RecoveryAction → RuntimeRecoveryEngine → RuntimeRecoveryEngine × Bool × List Event
unfolding begin_recovery end_recovery ask_all
execute action r =
    if is_none action
    then (r, true, [])
    else (let (begun, starts) = begin_recovery action "" r in
        let (success, asks) = ask_all begun.recovery_callbacks action in
        let (after, ends) = end_recovery success begun in
        (after, success, starts ++ (asks ++ ends)))
