-- ===== src/Runtime/ProofEngine/Verdicts.antt =====
-- When the proofs of server/runtime/system_proof_engine.cpp are valid.
use rfidsystem.Prelude.{ℕ, ◌≡◌, ◌≢◌, ◌↔◌, Bool, true, Option, none, some, List, [], arith}
use rfidsystem.Runtime.ProofEngine.{
  ProofResult, causal_record, verify_causality, prove_frame, prove_ai, prove_recovery,
  prove_system_health,
}
use rfidsystem.Runtime.ProofLedger.{ProofRecord}
use rfidsystem.Runtime.ProofLedger.Refinement.{append_all, latest, to_list, ledger_refines_map}

-- Valid, without violation and fully confident are one.
abbrev pub IsCoherent : ProofResult → Type 0
IsCoherent p =
    ((p.valid ≡ true) ↔ (p.violations ≡ [])) × ((p.valid ≡ true) ↔ (p.confidence_hundredths ≡ 100))

-- Each of the four proofs is valid exactly when it reports no violation, and exactly when its
-- confidence is 100 hundredths.
pub proofs-IsCoherent :
    (consistent : Bool) (frame : ℕ) (ledger : List ProofRecord)
    → IsCoherent (prove_frame consistent frame ledger)
      × IsCoherent (prove_ai consistent frame ledger)
      × IsCoherent (prove_recovery frame ledger)
      × IsCoherent (prove_system_health consistent ledger)
unfolding prove_frame prove_ai prove_recovery prove_system_health
proofs-IsCoherent consistent frame ledger = ground arith

-- A record with the hashes that a proof wants.
abbrev pub IsHashed : ProofRecord → Type 0
IsHashed r = (r.frame_hash ≢ 0) × (r.ai_hash ≢ 0)

abbrev pub SomeHashed : Option ProofRecord → Type 0
SomeHashed none = ⊥
SomeHashed (some r) = IsHashed r

causal_of_record : (o : Option ProofRecord) → (causal_record (to_list o) ≡ true) ↔ SomeHashed o
unfolding causal_record
causal_of_record none = ground arith
causal_of_record (some r) = ground arith

causal_of_history :
    (frame : ℕ) (history : List ProofRecord)
    → (verify_causality frame (append_all [] history) ≡ true)
      ↔ SomeHashed (latest frame none history)
unfolding verify_causality
causal_of_history frame history =
    rw (ledger_refines_map frame history).1 (causal_of_record (latest frame none history))

-- After any sequence of appends to an empty ledger, the proof of a frame is valid exactly when the
-- checker is consistent and the record appended last for that frame exists and has a frame hash and
-- an AI hash that are not zero. (The record's own `verified` flag is not asked for.)
pub prove_frame_iff :
    (consistent : Bool) (frame : ℕ) (history : List ProofRecord)
    → ((prove_frame consistent frame (append_all [] history)).valid ≡ true)
      ↔ ((consistent ≡ true) × SomeHashed (latest frame none history))
unfolding prove_frame
prove_frame_iff consistent frame history = ground (arith, causal_of_history frame history)
