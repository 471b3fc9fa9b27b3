-- ===== src/Runtime/Kernel/Healing.antt =====
-- When server/runtime/kernel/runtime_kernel.cpp heals, and how fast trust is lost without proofs.
use rfidsystem.Prelude.{
  ℕ, ◌-◌, ◌≤◌, ◌<◌, ltb, ◌≡◌, refl, ◌∙◌, ◌≢◌, inl, inr, Bool, true, false, ◌&&◌, List, [], ◌∷◌,
  arith, if◌then◌else◌, Bool-cases,
}
use rfidsystem.Prelude.Int.{ℤ, pos, pos_part, neg_part, ◌-ℤ◌, ltb_ℤ}
use rfidsystem.Runtime.Kernel.{
  RuntimeKernel, lose_unless, clamp, evaluate_consistency, evaluate_proof, evaluate_causality,
  execute_if, trigger_healing, trigger_healing_if_needed, tick,
}
use rfidsystem.Runtime.Consistency.{ConsistencyInput}
use rfidsystem.Runtime.ProofLedger.{ProofRecord, query}
use rfidsystem.Runtime.ProofEngine.{prove_frame, verify_causality, causal_record}
use rfidsystem.Runtime.Recovery.{
  RecoveryAction, none_needed, switch_to_safe_policy, restart_subsystem, emergency_stop,
  RuntimeRecoveryEngine, Event, execute,
}
use rfidsystem.Runtime.Recovery.Execution.{execute-Executed}
use rfidsystem.Runtime.Kernel.Trust.{
  IsTrust, Frame, run, consistency-Lowers, proof-Lowers, causality-Lowers, tick-IsTrust,
}

executed_last :
    (action : RecoveryAction) (r : RuntimeRecoveryEngine)
    → action ≢ none_needed
    → (execute action r).0.last_action ≡ action
executed_last action r h = (execute-Executed action r h).remembered

-- The action for a score below 50.
abbrev pub severity : ℕ → RecoveryAction
severity t =
    if ltb t 10
    then emergency_stop
    else if ltb t 30
    then restart_subsystem
    else switch_to_safe_policy

execute_if-last :
    (test : Bool) (action : RecoveryAction) (before : RuntimeRecoveryEngine × List Event)
    → action ≢ none_needed
    → (execute_if test action before).0.last_action
      ≡ (if test then action else before.0.last_action)
unfolding execute_if
execute_if-last true action (r, events) h = executed_last action r h
execute_if-last false action (r, events) h = refl

execute_if-skip :
    (test : Bool) (action : RecoveryAction) (before : RuntimeRecoveryEngine × List Event)
    → test ≡ false
    → execute_if test action before ≡ before
unfolding execute_if
execute_if-skip true action (r, events) h = cc
execute_if-skip false action (r, events) h = refl

healing_none : (t : ℕ) (r : RuntimeRecoveryEngine) → 50 ≤ t → trigger_healing (pos t) r ≡ (r, [])
unfolding trigger_healing
healing_none t r h =
    let none_yet =
      execute_if-skip (ltb_ℤ (pos t) (pos 50)) switch_to_safe_policy (r, []) (ground arith) in
    let still_none =
      execute_if-skip (ltb_ℤ (pos t) (pos 30)) restart_subsystem _ (ground arith) ∙ none_yet in
    let at_last =
      execute_if-skip (ltb_ℤ (pos t) (pos 10)) emergency_stop _ (ground arith) ∙ still_none in
    elim (Bool-cases (ltb_ℤ (pos 80) (pos t))) [ inl e ↦ rw e | inr e ↦ rw e at_last ]

healing_last :
    (t : ℕ) (r : RuntimeRecoveryEngine)
    → t < 50
    → (trigger_healing (pos t) r).0.last_action ≡ severity t
unfolding trigger_healing
healing_last t r h =
    let first = execute_if (ltb_ℤ (pos t) (pos 50)) switch_to_safe_policy (r, []) in
    let second = execute_if (ltb_ℤ (pos t) (pos 30)) restart_subsystem first in
    rw (low t h) (
      ground (
        arith,
        execute_if-last (ltb_ℤ (pos t) (pos 50)) switch_to_safe_policy (r, []) (λ e. cc e),
        execute_if-last (ltb_ℤ (pos t) (pos 30)) restart_subsystem first (λ e. cc e),
        execute_if-last (ltb_ℤ (pos t) (pos 10)) emergency_stop second (λ e. cc e),
      ))
  where
    low : (n : ℕ) → n < 50 → ltb_ℤ (pos 80) (pos n) ≡ false
    low n h = ground arith

-- With a score of 50 or more the engine is left alone, and nothing is called; below 50 the last action
-- executed is the safe policy, below 30 the restart of the subsystem, and below 10 the emergency stop.
pub healing_ladder :
    (high low : ℕ) (r : RuntimeRecoveryEngine)
    → 50 ≤ high
    → low < 50
    → (trigger_healing (pos high) r ≡ (r, []))
      × ((trigger_healing (pos low) r).0.last_action ≡ severity low)
healing_ladder high low r h l = (healing_none high r h, healing_last low r l)

-- The frame has no record in the ledger.
abbrev pub IsUnproved : List ProofRecord → ConsistencyInput → Type 0
IsUnproved ledger input = query input.frame_id ledger ≡ []

unproved_loss :
    (consistent : Bool) (t : ℤ)
    → IsTrust t
    → pos_part (
        clamp (
          lose_unless false 20
            (lose_unless consistent 25 (lose_unless (consistent && false) 25 t))))
      ≤ pos_part t - 45
unfolding clamp lose_unless ◌-ℤ◌
unproved_loss true t r = ground arith
unproved_loss false t r = ground arith

proof_loss :
    (consistent : Bool) (ledger : List ProofRecord) (frame : ℕ) (k : RuntimeKernel)
    → IsTrust k.trust_score
    → query frame ledger ≡ []
    → pos_part (evaluate_proof consistent ledger frame k).trust_score ≤ pos_part k.trust_score - 45
unfolding evaluate_proof prove_frame verify_causality causal_record
proof_loss consistent ledger frame k r e = rw e (unproved_loss consistent k.trust_score r)

trust_natural : (t : ℤ) → IsTrust t → neg_part t ≡ 0
trust_natural t r = ground arith

tick_loss :
    (consistent : Bool) (ledger : List ProofRecord) (input : ConsistencyInput) (k : RuntimeKernel)
    → IsTrust k.trust_score
    → IsUnproved ledger input
    → pos_part (tick consistent ledger input k).0.trust_score ≤ pos_part k.trust_score - 45
unfolding tick trigger_healing_if_needed
tick_loss consistent ledger input k r e =
    let k' = evaluate_consistency input k in
    let k'' = evaluate_proof consistent ledger input.frame_id k' in
    let a = consistency-Lowers input k r in
    let l = proof_loss consistent ledger input.frame_id k' a.0 e in
    let b = proof-Lowers consistent ledger input.frame_id k' a.0 in
    let c = causality-Lowers input.frame_id k'' b.0 in
    let loss : pos_part (evaluate_causality input.frame_id k'').trust_score
        ≤ pos_part k.trust_score - 45 =
      omega (
        arith,
        trust_natural k.trust_score r,
        trust_natural k'.trust_score a.0,
        trust_natural k''.trust_score b.0,
        trust_natural (evaluate_causality input.frame_id k'').trust_score c.0,
      ) in
    loss

tick_stops :
    (consistent : Bool) (ledger : List ProofRecord) (input : ConsistencyInput) (k : RuntimeKernel)
    → (tick consistent ledger input k).0.trust_score ≡ pos 0
    → (tick consistent ledger input k).0.recovery_engine.last_action ≡ emergency_stop
unfolding tick trigger_healing_if_needed
tick_stops consistent ledger input k e = rw e (healing_last 0 _ (omega arith))

zero_of_loss : (t : ℤ) → IsTrust t → pos_part t ≤ 0 → t ≡ pos 0
zero_of_loss t r h = ground arith

-- Whatever the kernel's state with a trust score in range, after three frames in a row that the
-- ledger has no record of the score is 0, and the last action executed is the emergency stop.
pub three_unproved_stop :
    (k : RuntimeKernel) (a b c : Frame)
    → IsTrust k.trust_score
    → IsUnproved a.ledger a.input
    → IsUnproved b.ledger b.input
    → IsUnproved c.ledger c.input
    → ((run k (a ∷ b ∷ c ∷ [])).trust_score ≡ pos 0)
      × ((run k (a ∷ b ∷ c ∷ [])).recovery_engine.last_action ≡ emergency_stop)
unfolding run
three_unproved_stop k a b c r ua ub uc =
    let k1 = (tick a.consistent a.ledger a.input k).0 in
    let k2 = (tick b.consistent b.ledger b.input k1).0 in
    let r1 = tick-IsTrust a.consistent a.ledger a.input k r in
    let r2 = tick-IsTrust b.consistent b.ledger b.input k1 r1.0 in
    let r3 = tick-IsTrust c.consistent c.ledger c.input k2 r2.0 in
    let l1 = tick_loss a.consistent a.ledger a.input k r ua in
    let l2 = tick_loss b.consistent b.ledger b.input k1 r1.0 ub in
    let l3 = tick_loss c.consistent c.ledger c.input k2 r2.0 uc in
    let zero = zero_of_loss _ r3.0 (omega (arith, trust_natural k.trust_score r)) in
    (zero, tick_stops c.consistent c.ledger c.input k2 zero)
