-- ===== src/Runtime/ProofEngine/Examples.antt =====
-- The proof engine at concrete ledgers.
use rfidsystem.Prelude.{◌≡◌, ◌↔◌, true, false, none, List, [], ◌∷◌}
use rfidsystem.Runtime.ProofEngine.{prove_frame, prove_ai, prove_recovery, prove_system_health}
use rfidsystem.Runtime.ProofLedger.{ProofRecord}
use rfidsystem.Runtime.ProofLedger.Refinement.{append_all, latest}
use rfidsystem.Runtime.ProofEngine.Verdicts.{
  IsCoherent, SomeHashed, proofs-IsCoherent, prove_frame_iff,
}

abbrev entry : ProofRecord
entry = record {
  frame_id = 4;
  frame_hash = 1;
  gpu_hash = 0;
  ai_hash = 2;
  decision_hash = 0;
  recovery_hash = 0;
  verified = false;
  signature = "";
  timestamp = 0;
}

abbrev ledger : List ProofRecord
ledger = append_all [] (entry ∷ [])

proofs-one :
    IsCoherent (prove_frame true 4 ledger)
    × IsCoherent (prove_ai true 4 ledger)
    × IsCoherent (prove_recovery 4 ledger)
    × IsCoherent (prove_system_health true ledger)
proofs-one = proofs-IsCoherent true 4 ledger

prove_frame_iff_example :
    ((prove_frame true 4 ledger).valid ≡ true)
    ↔ ((true ≡ true) × SomeHashed (latest 4 none (entry ∷ [])))
prove_frame_iff_example = prove_frame_iff true 4 (entry ∷ [])
