-- ===== src/Runtime/Recovery/Examples.antt =====
-- Runs of the recovery engine, and its theorems at concrete inputs.
use rfidsystem.Prelude.{ℕ, ◌≡◌, refl, ◌≢◌, ◌↔◌, ◌⊎◌, true, false, none, length}
use rfidsystem.Runtime.FailureBus.{FailureEvent, spatial_localization_drift, unknown}
use rfidsystem.Runtime.Recovery.{
  none_needed, restart_ai, reset_gpu, disable_overlay, emergency_stop, returned, threw,
  RecoveryCallback, RuntimeRecoveryEngine, new_engine, ask_all, execute, decide,
  register_recovery_callback, register_recovery_end_callback,
}
use rfidsystem.Runtime.Recovery.Decisions.{decide_range}
use rfidsystem.Runtime.Recovery.Execution.{Executed, execute-Executed}

abbrev agreeing : RecoveryCallback
agreeing = record { id = 1; answer = λ _. returned true }

abbrev failing : RecoveryCallback
failing = record { id = 2; answer = λ _. threw }

abbrev engine : RuntimeRecoveryEngine
engine = register_recovery_end_callback 9 (
    register_recovery_callback agreeing
      (register_recovery_callback failing (register_recovery_callback agreeing new_engine)))

-- The second callback throws, so the third is not asked.
engine_fails : ((execute reset_gpu engine).1 ≡ false) × (length (execute reset_gpu engine).2 ≡ 3)
unfolding execute new_engine register_recovery_callback register_recovery_end_callback
engine_fails = (refl, refl)

abbrev drift : FailureEvent ℕ
drift = record {
  type = spatial_localization_drift;
  frame_id = 3;
  timestamp = 0;
  message = "";
  severity = 100;
  acknowledged = false;
  tag_id = none;
  error_value = none;
  threshold = none;
}

decide-drift :
    ((decide drift ≡ none_needed)
      ↔ ((drift.type ≡ spatial_localization_drift) ⊎ (drift.type ≡ unknown)))
    × (decide drift ≢ restart_ai)
    × (decide drift ≢ disable_overlay)
    × (decide drift ≢ emergency_stop)
decide-drift = decide_range drift

execute-Executed_example :
    Executed reset_gpu engine
      (execute reset_gpu engine).0
      (execute reset_gpu engine).1
      (ask_all engine.recovery_callbacks reset_gpu).1
      (execute reset_gpu engine).2
execute-Executed_example = execute-Executed reset_gpu engine (λ e. cc e)
