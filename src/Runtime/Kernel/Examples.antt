-- ===== src/Runtime/Kernel/Examples.antt =====
-- Runs of the kernel, and its theorems at concrete inputs.
use rfidsystem.Prelude.{◌≡◌, refl, true, [], ◌∷◌, arith}
use rfidsystem.Prelude.Int.{pos, ◌≤ℤ◌}
use rfidsystem.Runtime.Kernel.{
  RuntimeKernel, trigger_healing, tick, is_system_trusted, reset_trust_score,
}
use rfidsystem.Runtime.Consistency.{ConsistencyInput, SystemConsistencyChecker}
use rfidsystem.Runtime.ProofLedger.{ProofRecord, query, find_from}
use rfidsystem.Runtime.ProofEngine.{prove_frame, verify_causality, causal_record}
use rfidsystem.Runtime.Recovery.{emergency_stop, new_engine}
use rfidsystem.Runtime.Kernel.Trust.{IsTrust, Frame, run, run-IsTrust, tick_keeps_trust}
use rfidsystem.Runtime.Kernel.Healing.{healing_ladder, severity, three_unproved_stop}

abbrev checker : SystemConsistencyChecker
checker = record { failure_streak = 0; last_frame_ok = true; last_ai_ok = true; last_gpu_ok = true }

abbrev kernel : RuntimeKernel
kernel = record { checker = checker; recovery_engine = new_engine; trust_score = pos 100 }

abbrev good : ConsistencyInput
good = record {
  frame_hash = 1;
  replay_frame_hash = 1;
  ai_hash = 2;
  replay_ai_hash = 2;
  gpu_hash = 3;
  render_hash = 3;
  frame_id = 4;
}

abbrev entry : ProofRecord
entry = record {
  frame_id = 4;
  frame_hash = 1;
  gpu_hash = 3;
  ai_hash = 2;
  decision_hash = 0;
  recovery_hash = 0;
  verified = true;
  signature = "";
  timestamp = 0;
}

abbrev proved : Frame
proved = record { consistent = true; ledger = entry ∷ []; input = good }

abbrev unproved : Frame
unproved = record { consistent = true; ledger = []; input = record good { gpu_hash = 0 } }

reset_restores : is_system_trusted (reset_trust_score (run kernel (unproved ∷ []))) ≡ true
unfolding is_system_trusted reset_trust_score
reset_restores = refl

run-IsTrust_example :
    IsTrust (run kernel (proved ∷ unproved ∷ [])).trust_score
    × ((run kernel (proved ∷ unproved ∷ [])).trust_score ≤ℤ pos 100)
run-IsTrust_example = run-IsTrust kernel (proved ∷ unproved ∷ []) (omega arith)

tick-trusted : (tick true (entry ∷ []) good kernel).0.trust_score ≡ pos 100
unfolding prove_frame verify_causality causal_record query find_from
tick-trusted = tick_keeps_trust true (entry ∷ []) good kernel (omega arith) (refl, refl, refl) refl

healing-one :
    (trigger_healing (pos 60) new_engine ≡ (new_engine, []))
    × ((trigger_healing (pos 20) new_engine).0.last_action ≡ severity 20)
healing-one = healing_ladder 60 20 new_engine (omega arith) (omega arith)

three_unproved_stop_example :
    ((run kernel (unproved ∷ unproved ∷ unproved ∷ [])).trust_score ≡ pos 0)
    × ((run kernel (unproved ∷ unproved ∷ unproved ∷ [])).recovery_engine.last_action
        ≡ emergency_stop)
unfolding query find_from
three_unproved_stop_example =
    three_unproved_stop kernel unproved unproved unproved (omega arith) refl refl refl
