-- ===== src/Runtime/Consistency/Verdicts.antt =====
-- What the verdicts of server/runtime/system_consistency_checker.cpp and of the gate mean.
use rfidsystem.Prelude.{◌+◌, ◌≤◌, ◌≡◌, ◌↔◌, ◌⊎◌, true, List, [], ◌∷◌, arith}
use rfidsystem.Runtime.Consistency.{
  ConsistencyInput, SystemConsistencyChecker, verify, is_system_at_risk, TruthConsistencyGate,
  evaluate, is_valid,
}

-- The three pairs of hashes agree.
abbrev pub IsConsistent : ConsistencyInput → Type 0
IsConsistent i =
    (i.frame_hash ≡ i.replay_frame_hash)
    × (i.ai_hash ≡ i.replay_ai_hash)
    × (i.gpu_hash ≡ i.render_hash)

-- The gate's score is at most 100, and it is 100 exactly when the gate is valid, which is exactly when
-- the three pairs of hashes of the input agree; then and only then is no violation reported.
pub evaluate_verdict :
    (i : ConsistencyInput) (g : TruthConsistencyGate)
    → ((evaluate i g).1 ≤ 100)
      × (((evaluate i g).1 ≡ 100) ↔ (is_valid (evaluate i g).0 ≡ true))
      × ((is_valid (evaluate i g).0 ≡ true) ↔ IsConsistent i)
      × (((evaluate i g).0.last_result.violations ≡ []) ↔ IsConsistent i)
unfolding evaluate is_valid
evaluate_verdict i g = ground arith

-- Some pair of hashes differs.
abbrev pub IsInconsistent : ConsistencyInput → Type 0
IsInconsistent i = ¬ (IsConsistent i)

abbrev pub fresh : SystemConsistencyChecker
fresh = record { failure_streak = 0; last_frame_ok = true; last_ai_ok = true; last_gpu_ok = true }

-- The checker after a history of inputs, the latest first.
unfoldable pub after : List ConsistencyInput → SystemConsistencyChecker
after [] = fresh
after (i ∷ older) = (verify i (after older)).0

verify-streak :
    (i : ConsistencyInput) (c : SystemConsistencyChecker)
    → (IsConsistent i × ((verify i c).0.failure_streak ≡ 0))
      ⊎ (IsInconsistent i × ((verify i c).0.failure_streak ≡ c.failure_streak + 1))
unfolding verify
verify-streak i c = ground arith

-- The three latest inputs exist, and each has a pair of hashes that differs.
abbrev pub LastThreeBad : List ConsistencyInput → Type 0
LastThreeBad (a ∷ b ∷ c ∷ older) = IsInconsistent a × IsInconsistent b × IsInconsistent c
LastThreeBad _ = ⊥

ThreeBad-step :
    (a b c : ConsistencyInput) (older : List ConsistencyInput)
    → (is_system_at_risk (after (a ∷ b ∷ c ∷ older)) ≡ true) ↔ LastThreeBad (a ∷ b ∷ c ∷ older)
unfolding is_system_at_risk after
ThreeBad-step a b c older = ground (
  arith,
  verify-streak a (verify b (verify c (after older)).0).0,
  verify-streak b (verify c (after older)).0,
  verify-streak c (after older),
)

-- A checker that started fresh reports the system at risk exactly when each of the three latest
-- inputs had a pair of hashes that differs.
pub at_risk_iff :
    (is : List ConsistencyInput) → (is_system_at_risk (after is) ≡ true) ↔ LastThreeBad is
unfolding is_system_at_risk after
at_risk_iff [] = ground arith
at_risk_iff (a ∷ []) = ground (arith, verify-streak a fresh)
at_risk_iff (a ∷ b ∷ []) = ground (arith, verify-streak a (verify b fresh).0, verify-streak b fresh)
at_risk_iff (a ∷ b ∷ c ∷ older) = ThreeBad-step a b c older
