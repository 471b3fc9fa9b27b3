-- ===== src/Runtime/Kernel.antt =====
-- server/runtime/kernel/runtime_kernel.h and .cpp: the kernel that each frame passes through.
-- The trust score is an `int`, here an integer; it stays between -100 and 100, far from overflow. The
-- ledger is the argument that the proof engine reads, and `consistent` what it hears of the checker.
pub mod Trust
pub mod Healing
mod Examples
use rfidsystem.Prelude.{ℕ, ◌*◌, ltb, Bool, not, List, [], ◌++◌, if◌then◌else◌}
use rfidsystem.Prelude.Int.{ℤ, pos, ◌-ℤ◌, ltb_ℤ, max_ℤ, min_ℤ}
use rfidsystem.Runtime.Consistency.{ConsistencyInput, SystemConsistencyChecker, verify}
use rfidsystem.Runtime.ProofLedger.{ProofRecord}
use rfidsystem.Runtime.ProofEngine.{prove_frame}
use rfidsystem.Runtime.Recovery.{
  RecoveryAction, switch_to_safe_policy, restart_subsystem, emergency_stop, RuntimeRecoveryEngine,
  Event, execute,
}

pub record RuntimeKernel : Type 0 where
  pub checker : SystemConsistencyChecker
  pub recovery_engine : RuntimeRecoveryEngine
  pub trust_score : ℤ

-- `if (!ok) trust_score_ -= n;`
unfoldable pub lose_unless : Bool → ℕ → ℤ → ℤ
lose_unless ok n t = if ok then t else t -ℤ pos n

-- std::max(0, std::min(100, t))
unfoldable pub clamp : ℤ → ℤ
clamp t = max_ℤ (pos 0) (min_ℤ (pos 100) t)

-- The confidence is below 0.6 when it is at most one third.
unfoldable pub evaluate_consistency : ConsistencyInput → RuntimeKernel → RuntimeKernel
evaluate_consistency input k =
    let (checker', result) = verify input k.checker in
    record k {
      checker = checker';
      trust_score = clamp (
          lose_unless (not (ltb (result.confidence_thirds * 10) 18)) 10 (
            lose_unless result.gpu_consistent 30 (
              lose_unless result.ai_consistent 30
                (lose_unless result.frame_consistent 20 k.trust_score))));
    }

unfoldable pub evaluate_proof : Bool → List ProofRecord → ℕ → RuntimeKernel → RuntimeKernel
evaluate_proof consistent ledger frame k =
    let result = prove_frame consistent frame ledger in
    record k {
      trust_score = clamp (
          lose_unless result.causal_ok 20
            (lose_unless result.deterministic_ok 25 (lose_unless result.valid 25 k.trust_score)));
    }

unfoldable pub evaluate_causality : ℕ → RuntimeKernel → RuntimeKernel
evaluate_causality frame k = record k { trust_score = clamp k.trust_score }

-- `if (test) recovery_engine_->execute(action);`, with the calls made so far.
unfoldable pub execute_if :
    Bool → RecoveryAction → RuntimeRecoveryEngine × List Event → RuntimeRecoveryEngine × List Event
execute_if test action (engine, events) =
    if test
    then (let (engine', ok, more) = execute action engine in (engine', events ++ more))
    else (engine, events)

unfoldable pub trigger_healing : ℤ → RuntimeRecoveryEngine → RuntimeRecoveryEngine × List Event
trigger_healing t engine =
    if ltb_ℤ (pos 80) t
    then (engine, [])
    else execute_if (ltb_ℤ t (pos 10)) emergency_stop (
        execute_if (ltb_ℤ t (pos 30)) restart_subsystem
          (execute_if (ltb_ℤ t (pos 50)) switch_to_safe_policy (engine, [])))

unfoldable pub trigger_healing_if_needed : RuntimeKernel → RuntimeKernel × List Event
trigger_healing_if_needed k =
    let (engine, events) = trigger_healing k.trust_score k.recovery_engine in
    (record k { recovery_engine = engine }, events)

unfoldable pub tick :
    Bool → List ProofRecord → ConsistencyInput → RuntimeKernel → RuntimeKernel × List Event
tick consistent ledger input k = trigger_healing_if_needed (
    evaluate_causality input.frame_id
      (evaluate_proof consistent ledger input.frame_id (evaluate_consistency input k)))

unfoldable pub is_system_trusted : RuntimeKernel → Bool
is_system_trusted k = ltb_ℤ (pos 70) k.trust_score

unfoldable pub reset_trust_score : RuntimeKernel → RuntimeKernel
reset_trust_score k = record k { trust_score = pos 100 }
