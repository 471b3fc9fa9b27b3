-- ===== src/Runtime/ProofEngine.antt =====
-- server/runtime/system_proof_engine.h and .cpp: proofs about a frame, read off the ledger.
-- `SystemConsistencyChecker::isConsistent`, which the engine calls and no file of the repository
-- declares, is the parameter `consistent`. A violation is its text and the frame number appended to it.
-- The confidences are sums of decimal fractions in the source, and hundredths here.
pub mod Verdicts
mod Examples
use rfidsystem.Prelude.{
  ℕ, ◌+◌, ◌==◌, Bool, true, false, not, ◌&&◌, ◌||◌, Option, none, some, List, [], ◌∷◌, ◌++◌, String,
  if◌then◌else◌,
}
use rfidsystem.Runtime.ProofLedger.{ProofRecord, query}

pub record Violation : Type 0 where
  pub text : String
  pub frame : Option ℕ

pub record ProofResult : Type 0 where
  pub valid : Bool
  pub deterministic_ok : Bool
  pub causal_ok : Bool
  pub recovery_ok : Bool
  pub confidence_hundredths : ℕ
  pub violations : List Violation

-- `verifyCausality` on the records that `query` returned.
unfoldable pub causal_record : List ProofRecord → Bool
causal_record [] = false
causal_record (r ∷ rs) = if r.frame_hash == 0 || r.ai_hash == 0 then false else true

unfoldable pub verify_causality : ℕ → List ProofRecord → Bool
unfolding causal_record
verify_causality frame ledger = causal_record (query frame ledger)

unfoldable pub recovered_record : List ProofRecord → Bool
recovered_record [] = false
recovered_record (r ∷ rs) = not (r.recovery_hash == 0)

unfoldable pub verify_recovery_state : ℕ → List ProofRecord → Bool
unfolding recovered_record
verify_recovery_state frame ledger = recovered_record (query frame ledger)

-- The pushes for a check that failed.
unfoldable pub violation : Bool → String → Option ℕ → List Violation
violation ok text frame = if ok then [] else record { text = text; frame = frame } ∷ []

unfoldable pub prove_frame : Bool → ℕ → List ProofRecord → ProofResult
unfolding violation
prove_frame consistent frame ledger =
    let causal : Bool = verify_causality frame ledger in
    record {
      valid = consistent && causal;
      deterministic_ok = consistent;
      causal_ok = causal;
      recovery_ok = true;
      confidence_hundredths = (if consistent then 40 else 0) + (if causal then 40 else 0) + 20;
      violations =
          violation consistent "Determinism violation in frame " (some frame)
          ++ violation causal "Causality violation in frame " (some frame);
    }

unfoldable pub prove_ai : Bool → ℕ → List ProofRecord → ProofResult
unfolding violation
prove_ai consistent frame ledger =
    let causal : Bool = verify_causality frame ledger in
    record {
      valid = consistent && causal;
      deterministic_ok = consistent;
      causal_ok = causal;
      recovery_ok = true;
      confidence_hundredths = (if consistent then 50 else 0) + (if causal then 50 else 0);
      violations =
          violation consistent "AI determinism violation in frame " (some frame)
          ++ violation causal "AI causality violation in frame " (some frame);
    }

unfoldable pub prove_recovery : ℕ → List ProofRecord → ProofResult
unfolding violation
prove_recovery frame ledger =
    let recovered : Bool = verify_recovery_state frame ledger in
    record {
      valid = recovered;
      deterministic_ok = true;
      causal_ok = true;
      recovery_ok = recovered;
      confidence_hundredths = if recovered then 100 else 0;
      violations = violation recovered "Recovery state violation in frame " (some frame);
    }

unfoldable pub prove_system_health : Bool → List ProofRecord → ProofResult
unfolding violation
prove_system_health consistent ledger =
    let causal : Bool = verify_causality 0 ledger in
    let recovered : Bool = verify_recovery_state 0 ledger in
    record {
      valid = consistent && causal && recovered;
      deterministic_ok = consistent;
      causal_ok = causal;
      recovery_ok = recovered;
      confidence_hundredths =
          (if consistent then 33 else 0)
          + (if causal then 33 else 0)
          + (if recovered then 34 else 0);
      violations =
          violation consistent "System-wide determinism violation" none
          ++ (violation causal "System-wide causality violation" none
              ++ violation recovered "System-wide recovery state violation" none);
    }
