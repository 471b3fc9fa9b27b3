-- ===== src/Runtime/Consistency.antt =====
-- server/runtime/system_consistency_checker.h and .cpp, and the gate over it,
-- server/runtime/kernel/truth_consistency_gate.h and .cpp.
-- The confidence is a count of thirds: the source divides the score by 3.0.
pub mod Verdicts
mod Examples
use rfidsystem.Prelude.{
  ℕ, ◌+◌, ◌==◌, leb, Bool, true, not, ◌&&◌, ◌||◌, List, [], ◌∷◌, ◌++◌, String, if◌then◌else◌,
}

pub record ConsistencyInput : Type 0 where
  pub frame_hash : ℕ
  pub replay_frame_hash : ℕ
  pub ai_hash : ℕ
  pub replay_ai_hash : ℕ
  pub gpu_hash : ℕ
  pub render_hash : ℕ
  pub frame_id : ℕ

pub record ConsistencyResult : Type 0 where
  pub frame_consistent : Bool
  pub ai_consistent : Bool
  pub gpu_consistent : Bool
  pub confidence_thirds : ℕ
  pub violations : List String

pub record SystemConsistencyChecker : Type 0 where
  pub failure_streak : ℕ
  pub last_frame_ok : Bool
  pub last_ai_ok : Bool
  pub last_gpu_ok : Bool

-- calculateConfidence, in thirds.
unfoldable pub calculate_confidence : Bool → Bool → Bool → ℕ
calculate_confidence f a g = (if f then 1 else 0) + (if a then 1 else 0) + (if g then 1 else 0)

-- The pushes onto `violations`, in order.
unfoldable pub violations_of : Bool → Bool → Bool → List String
violations_of f a g =
    (if f then [] else "FRAME_MISMATCH" ∷ [])
    ++ ((if a then [] else "AI_MISMATCH" ∷ []) ++ (if g then [] else "GPU_MISMATCH" ∷ []))

unfoldable pub verify_frame : ℕ → ℕ → SystemConsistencyChecker → SystemConsistencyChecker × Bool
verify_frame realtime_hash replay_hash c =
    (record c { last_frame_ok = realtime_hash == replay_hash }, realtime_hash == replay_hash)

unfoldable pub verify_ai : ℕ → ℕ → SystemConsistencyChecker → SystemConsistencyChecker × Bool
verify_ai ai_hash replay_ai_hash c =
    (record c { last_ai_ok = ai_hash == replay_ai_hash }, ai_hash == replay_ai_hash)

unfoldable pub verify_gpu : ℕ → ℕ → SystemConsistencyChecker → SystemConsistencyChecker × Bool
verify_gpu gpu_hash render_hash c =
    (record c { last_gpu_ok = gpu_hash == render_hash }, gpu_hash == render_hash)

unfoldable pub verify :
    ConsistencyInput → SystemConsistencyChecker → SystemConsistencyChecker × ConsistencyResult
unfolding calculate_confidence violations_of verify_frame verify_ai verify_gpu
verify input c =
    let (c1, f) = verify_frame input.frame_hash input.replay_frame_hash c in
    let (c2, a) = verify_ai input.ai_hash input.replay_ai_hash c1 in
    let (c3, g) = verify_gpu input.gpu_hash input.render_hash c2 in
    (
      record c3 { failure_streak = if not f || not a || not g then c.failure_streak + 1 else 0 },
      record {
        frame_consistent = f;
        ai_consistent = a;
        gpu_consistent = g;
        confidence_thirds = calculate_confidence f a g;
        violations = violations_of f a g;
      },
    )

unfoldable pub is_system_at_risk : SystemConsistencyChecker → Bool
is_system_at_risk c = leb 3 c.failure_streak

unfoldable pub reset : SystemConsistencyChecker → SystemConsistencyChecker
reset c = record { failure_streak = 0; last_frame_ok = true; last_ai_ok = true; last_gpu_ok = true }

pub record TruthConsistencyGate : Type 0 where
  pub checker : SystemConsistencyChecker
  pub last_result : ConsistencyResult
  pub last_score : ℕ

unfoldable pub evaluate : ConsistencyInput → TruthConsistencyGate → TruthConsistencyGate × ℕ
unfolding verify
evaluate input g =
    let (checker', result) = verify input g.checker in
    let score : ℕ =
      (if result.frame_consistent then 34 else 0)
      + (if result.ai_consistent then 33 else 0)
      + (if result.gpu_consistent then 33 else 0) in
    (record { checker = checker'; last_result = result; last_score = score }, score)

unfoldable pub is_valid : TruthConsistencyGate → Bool
is_valid g =
    g.last_result.frame_consistent && g.last_result.ai_consistent && g.last_result.gpu_consistent
