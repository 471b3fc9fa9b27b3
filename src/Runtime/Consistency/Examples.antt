-- ===== src/Runtime/Consistency/Examples.antt =====
-- The consistency checker at concrete inputs.
use rfidsystem.Prelude.{◌≤◌, ◌≡◌, refl, ◌↔◌, true, false, [], ◌∷◌}
use rfidsystem.Runtime.Consistency.{
  ConsistencyInput, verify, is_system_at_risk, reset, TruthConsistencyGate, evaluate, is_valid,
}
use rfidsystem.Runtime.Consistency.Verdicts.{
  IsConsistent, LastThreeBad, fresh, after, at_risk_iff, evaluate_verdict,
}

abbrev good : ConsistencyInput
good = record {
  frame_hash = 1;
  replay_frame_hash = 1;
  ai_hash = 2;
  replay_ai_hash = 2;
  gpu_hash = 3;
  render_hash = 3;
  frame_id = 9;
}

abbrev bad : ConsistencyInput
bad = record good { gpu_hash = 4 }

abbrev gate : TruthConsistencyGate
gate = record { checker = fresh; last_result = (verify good fresh).1; last_score = 0 }

bad_scores : (evaluate bad gate).1 ≡ 67
unfolding evaluate
bad_scores = refl

reset_forgets : is_system_at_risk (reset (after (bad ∷ bad ∷ bad ∷ []))) ≡ false
unfolding reset is_system_at_risk
reset_forgets = refl

evaluate-one :
    ((evaluate bad gate).1 ≤ 100)
    × (((evaluate bad gate).1 ≡ 100) ↔ (is_valid (evaluate bad gate).0 ≡ true))
    × ((is_valid (evaluate bad gate).0 ≡ true) ↔ IsConsistent bad)
    × (((evaluate bad gate).0.last_result.violations ≡ []) ↔ IsConsistent bad)
evaluate-one = evaluate_verdict bad gate

at_risk-one :
    (is_system_at_risk (after (bad ∷ bad ∷ bad ∷ good ∷ [])) ≡ true)
    ↔ LastThreeBad (bad ∷ bad ∷ bad ∷ good ∷ [])
at_risk-one = at_risk_iff (bad ∷ bad ∷ bad ∷ good ∷ [])
