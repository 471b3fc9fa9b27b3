-- ===== src/Runtime/Recovery/Execution.antt =====
-- What `execute` of server/runtime/runtime_recovery_engine.cpp does.
use rfidsystem.Prelude.{
  ◌+◌, ◌≡◌, refl, ap, ◌≢◌, ◌⊎◌, inl, inr, Bool, true, false, List, [], ◌∷◌, ◌++◌, map, arith, All,
  u64, if◌then◌else◌,
}
use rfidsystem.Runtime.Recovery.{
  RecoveryAction, none_needed, Outcome, returned, threw, RecoveryCallback, Event, started, asked,
  ended, RuntimeRecoveryEngine, ask_all, execute,
}

-- A callback that agrees to the action.
abbrev pub Agrees : RecoveryAction → RecoveryCallback → Type 0
Agrees action c = c.answer action ≡ returned true

ask_all-true :
    (cs : List RecoveryCallback) (action : RecoveryAction)
    → (ask_all cs action).0 ≡ true
    → All (Agrees action) cs
unfolding ask_all
ask_all-true [] action h = tt
ask_all-true (c ∷ cs) action h = (ground arith, ask_all-true cs action (ground arith))

ask_all_agreed :
    (cs : List RecoveryCallback) (action : RecoveryAction)
    → All (Agrees action) cs
    → (ask_all cs action).0 ≡ true
unfolding ask_all
ask_all_agreed [] action h = refl
ask_all_agreed (c ∷ cs) action h = ground (arith, ask_all_agreed cs action h.1)

-- The callbacks that were asked are the first ones: all of them, or up to one that did not agree.
abbrev pub AskedFirst : RecoveryAction → List RecoveryCallback → Bool → List Event → Type 0
AskedFirst action cs ok asks =
    (seen : List RecoveryCallback) × (rest : List RecoveryCallback) × (cs ≡ seen ++ rest)
    × (asks ≡ map (λ c. asked c.id action) seen)
    × (ok ≡ true → rest ≡ [])

Outcome-cases : (o : Outcome) → (o ≡ returned true) ⊎ ((o ≡ returned false) ⊎ (o ≡ threw))
Outcome-cases (returned true) = inl refl
Outcome-cases (returned false) = inr (inl refl)
Outcome-cases threw = inr (inr refl)

ask_all_first :
    (cs : List RecoveryCallback) (action : RecoveryAction)
    → AskedFirst action cs (ask_all cs action).0 (ask_all cs action).1
unfolding ask_all
ask_all_first [] action = ([], [], refl, refl, λ t. refl)
ask_all_first (c ∷ cs) action = elim (Outcome-cases (c.answer action)) [
  | inl agreed ↦
      let (seen, rest, split, asks, whole) = ask_all_first cs action in
      (c ∷ seen, rest, ap (◌∷◌ c) split, ground arith, λ t. whole (ground arith))
  | inr (inl refused) ↦ (c ∷ [], cs, refl, ground arith, λ t. ground arith)
  | inr (inr failed) ↦ (c ∷ [], cs, refl, ground arith, λ t. ground arith)
]

-- The facts about one execution.
pub record Executed (action : RecoveryAction) (r r' : RuntimeRecoveryEngine) (ok : Bool)
    (asks events : List Event) : Type 0 where
  pub idle : r'.in_recovery ≡ false
  pub remembered : r'.last_action ≡ action
  pub counted : r'.recovery_count ≡ (if ok then u64 (r.recovery_count + 1) else r.recovery_count)
  pub agreed : ok ≡ true → All (Agrees action) r.recovery_callbacks
  pub succeeds : All (Agrees action) r.recovery_callbacks → ok ≡ true
  pub first : AskedFirst action r.recovery_callbacks ok asks
  pub bracketed :
      events
      ≡ map (λ c. started c action "") r.start_callbacks
        ++ (asks ++ map (λ c. ended c action ok) r.end_callbacks)

-- Executing an action other than NONE leaves the engine idle with that action remembered. It
-- succeeds exactly when every recovery callback returned true, and only then is it counted (modulo
-- 2^64). Recovery callbacks are asked in order: all of them on success, and else an initial part.
-- Every start callback is told before, and every end callback after, with the success.
pub execute-Executed :
    (action : RecoveryAction) (r : RuntimeRecoveryEngine)
    → action ≢ none_needed
    → Executed action r
        (execute action r).0
        (execute action r).1
        (ask_all r.recovery_callbacks action).1
        (execute action r).2
unfolding execute
execute-Executed none_needed r h = absurd (h refl)
execute-Executed action r h = record {
  idle = refl;
  remembered = refl;
  counted = refl;
  agreed = ask_all-true r.recovery_callbacks _;
  succeeds = ask_all_agreed r.recovery_callbacks _;
  first = ask_all_first r.recovery_callbacks _;
  bracketed = refl;
}
