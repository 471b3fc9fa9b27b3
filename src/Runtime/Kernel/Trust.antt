-- ===== src/Runtime/Kernel/Trust.antt =====
-- How the trust score of server/runtime/kernel/runtime_kernel.cpp moves.
use rfidsystem.Prelude.{ℕ, ◌≡◌, sym, subst, Bool, true, false, List, [], ◌∷◌, arith}
use rfidsystem.Prelude.Int.{ℤ, pos, ◌≤ℤ◌, int_laws}
use rfidsystem.Runtime.Kernel.{
  RuntimeKernel, lose_unless, clamp, evaluate_consistency, evaluate_proof, evaluate_causality,
  trigger_healing_if_needed, tick,
}
use rfidsystem.Runtime.Consistency.{ConsistencyInput, verify}
use rfidsystem.Runtime.ProofLedger.{ProofRecord}
use rfidsystem.Runtime.ProofEngine.{prove_frame}
use rfidsystem.Runtime.Consistency.Verdicts.{IsConsistent}

abbrev pub IsTrust : ℤ → Type 0
IsTrust t = (pos 0 ≤ℤ t) × (t ≤ℤ pos 100)

lose_unless-le : (ok : Bool) (n : ℕ) (t : ℤ) → lose_unless ok n t ≤ℤ t
unfolding lose_unless
lose_unless-le true n t = omega arith
lose_unless-le false n t = omega int_laws

-- A clamped score is in range, and no larger than a score in range that bounds the argument.
clamp_lem : (t u : ℤ) → t ≤ℤ u → IsTrust u → IsTrust (clamp t) × (clamp t ≤ℤ u)
unfolding clamp
clamp_lem t u h r = ground arith

clamp-IsTrust : (t : ℤ) → IsTrust (clamp t)
unfolding clamp
clamp-IsTrust t = ground arith

-- No step raises a score in range, or leaves the range.
abbrev pub Lowers : (RuntimeKernel → RuntimeKernel) → RuntimeKernel → Type 0
Lowers f k =
    IsTrust k.trust_score → IsTrust (f k).trust_score × ((f k).trust_score ≤ℤ k.trust_score)

pub consistency-Lowers :
    (input : ConsistencyInput) (k : RuntimeKernel) → Lowers (evaluate_consistency input) k
unfolding evaluate_consistency
consistency-Lowers input k r = clamp_lem _ k.trust_score (omega (arith, lose_unless-le)) r

pub proof-Lowers :
    (consistent : Bool) (ledger : List ProofRecord) (frame : ℕ) (k : RuntimeKernel)
    → Lowers (evaluate_proof consistent ledger frame) k
unfolding evaluate_proof
proof-Lowers consistent ledger frame k r =
    clamp_lem _ k.trust_score (omega (arith, lose_unless-le)) r

pub causality-Lowers : (frame : ℕ) (k : RuntimeKernel) → Lowers (evaluate_causality frame) k
unfolding evaluate_causality
causality-Lowers frame k r = clamp_lem k.trust_score k.trust_score (omega arith) r

-- A tick never raises the trust score, and keeps it between 0 and 100.
pub tick-IsTrust :
    (consistent : Bool) (ledger : List ProofRecord) (input : ConsistencyInput) (k : RuntimeKernel)
    → IsTrust k.trust_score
    → IsTrust (tick consistent ledger input k).0.trust_score
      × ((tick consistent ledger input k).0.trust_score ≤ℤ k.trust_score)
unfolding tick trigger_healing_if_needed
tick-IsTrust consistent ledger input k r =
    let k' = evaluate_consistency input k in
    let k'' = evaluate_proof consistent ledger input.frame_id k' in
    let a = consistency-Lowers input k r in
    let b = proof-Lowers consistent ledger input.frame_id k' a.0 in
    let c = causality-Lowers input.frame_id k'' b.0 in (c.0, omega arith)

-- What one tick is given: what the proof engine hears of the checker, the ledger and the input.
pub record Frame : Type 0 where
  pub consistent : Bool
  pub ledger : List ProofRecord
  pub input : ConsistencyInput

unfoldable pub run : RuntimeKernel → List Frame → RuntimeKernel
run k [] = k
run k (f ∷ fs) = run (tick f.consistent f.ledger f.input k).0 fs

-- Over any sequence of frames the trust score stays between 0 and 100 and never rises: no frame
-- restores trust, however good, and only `resetTrustScore` can.
pub run-IsTrust :
    (k : RuntimeKernel) (fs : List Frame)
    → IsTrust k.trust_score
    → IsTrust (run k fs).trust_score × ((run k fs).trust_score ≤ℤ k.trust_score)
unfolding run
run-IsTrust k [] r = (r, omega arith)
run-IsTrust k (f ∷ fs) r =
    let now = tick-IsTrust f.consistent f.ledger f.input k r in
    let later = run-IsTrust (tick f.consistent f.ledger f.input k).0 fs now.0 in
    (later.0, omega arith)

pub clamp_same : (t : ℤ) → IsTrust t → clamp t ≡ t
unfolding clamp
clamp_same t r = ground arith

consistency_same :
    (input : ConsistencyInput) (k : RuntimeKernel)
    → IsTrust k.trust_score
    → IsConsistent input
    → (evaluate_consistency input k).trust_score ≡ k.trust_score
unfolding evaluate_consistency verify lose_unless
consistency_same input k r h = ground (arith, clamp_same k.trust_score r)

proof_same :
    (consistent : Bool) (ledger : List ProofRecord) (frame : ℕ) (k : RuntimeKernel)
    → IsTrust k.trust_score
    → (prove_frame consistent frame ledger).valid ≡ true
    → (evaluate_proof consistent ledger frame k).trust_score ≡ k.trust_score
unfolding evaluate_proof prove_frame lose_unless
proof_same consistent ledger frame k r h = ground (arith, clamp_same k.trust_score r)

-- A frame whose three pairs of hashes agree and whose proof is valid keeps the trust score as it is.
pub tick_keeps_trust :
    (consistent : Bool) (ledger : List ProofRecord) (input : ConsistencyInput) (k : RuntimeKernel)
    → IsTrust k.trust_score
    → IsConsistent input
    → (prove_frame consistent input.frame_id ledger).valid ≡ true
    → (tick consistent ledger input k).0.trust_score ≡ k.trust_score
unfolding tick trigger_healing_if_needed evaluate_causality
tick_keeps_trust consistent ledger input k r h v =
    let k' = evaluate_consistency input k in
    let a = consistency_same input k r h in
    let r' : IsTrust k'.trust_score = subst IsTrust (sym a) r in
    let b = proof_same consistent ledger input.frame_id k' r' v in
    ground (arith, a, b, clamp_same k.trust_score r)
