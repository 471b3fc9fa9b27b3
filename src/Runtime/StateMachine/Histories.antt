-- ===== src/Runtime/StateMachine/Histories.antt =====
-- What holds of server/runtime/runtime_state_machine.cpp over every history of calls.
use rfidsystem.Prelude.{
  ℕ, ◌+◌, ◌*◌, ◌<◌, ◌≡◌, refl, ◌⊎◌, inl, inr, Bool, true, false, ◌||◌, List, [], ◌∷◌, arith, length,
  All, length-append, u64, u64_mod, if◌then◌else◌,
}
use rfidsystem.Runtime.StateMachine.{
  RuntimeState, RuntimeStateMachine, Call, initializes, shuts_down, transits, registers, recovering,
  emergency_stop, shutdown, ◌=?◌, initialize, shut_down, is_valid_transition, transition,
  notify_all, register_state_change_callback, can_run_ai, step, run, run_sent,
}

-- Calls other than `initialize`.
abbrev pub no_reset : Call → Bool
no_reset initializes = false
no_reset _ = true

abbrev pub Unreset : List Call → Type 0
Unreset cs = All (λ c. no_reset c ≡ true) cs

shutdown-step :
    (m : RuntimeStateMachine) (c : Call)
    → no_reset c ≡ true
    → m.state ≡ shutdown
    → ((step m c).0.state ≡ shutdown) × ((step m c).1 ≡ [])
unfolding step initialize shut_down transition register_state_change_callback is_valid_transition
shutdown-step m c n h = ground arith

-- SHUTDOWN is final: whatever calls other than `initialize` follow, the state stays SHUTDOWN, and no
-- callback is called.
pub shutdown_final :
    (m : RuntimeStateMachine) (cs : List Call)
    → Unreset cs
    → m.state ≡ shutdown
    → ((run m cs).state ≡ shutdown) × (run_sent m cs ≡ [])
unfolding run run_sent
shutdown_final m [] n h = (h, refl)
shutdown_final m (c ∷ cs) n h =
    let now = shutdown-step m c n.0 h in
    let later = shutdown_final (step m c).0 cs n.1 now.0 in (later.0, rw now.1 later.1)

-- Whether a history passes through a state, the last one included.
pub passes : RuntimeState → RuntimeStateMachine → List Call → Bool
passes s m [] = m.state =? s
passes s m (c ∷ cs) = m.state =? s || passes s (step m c).0 cs

-- The states that are left for RECOVERING only.
abbrev stopped : RuntimeState → Bool
stopped s = s =? emergency_stop || s =? shutdown

stopped-step :
    (m : RuntimeStateMachine) (c : Call)
    → no_reset c ≡ true
    → stopped m.state ≡ true
    → (stopped (step m c).0.state ≡ true) ⊎ (((step m c).0.state =? recovering) ≡ true)
unfolding step initialize shut_down transition register_state_change_callback is_valid_transition
stopped-step m c n h = ground arith

passes_here :
    (s : RuntimeState) (m : RuntimeStateMachine) (cs : List Call)
    → (m.state =? s) ≡ true
    → passes s m cs ≡ true
unfolding passes
passes_here s m [] h = h
passes_here s m (c ∷ cs) h = ground arith

passes_later :
    (s : RuntimeState) (m : RuntimeStateMachine) (c : Call) (cs : List Call)
    → passes s (step m c).0 cs ≡ true
    → passes s m (c ∷ cs) ≡ true
unfolding passes
passes_later s m c cs h = ground arith

stopped-passes :
    (m : RuntimeStateMachine) (cs : List Call)
    → Unreset cs
    → stopped m.state ≡ true
    → can_run_ai (run m cs).state ≡ true
    → passes recovering m cs ≡ true
unfolding run can_run_ai
stopped-passes m [] n h r = ground arith
stopped-passes m (c ∷ cs) n h r = passes_later recovering m c cs (elim (stopped-step m c n.0 h) [
  | inl still ↦ stopped-passes (step m c).0 cs n.1 still r
  | inr back ↦ passes_here recovering (step m c).0 cs back
])

-- After an emergency stop, no history of calls without `initialize` ends in a state where AI may run
-- unless it passed through RECOVERING.
pub emergency_needs_recovery :
    (m : RuntimeStateMachine) (cs : List Call)
    → Unreset cs
    → m.state ≡ emergency_stop
    → can_run_ai (run m cs).state ≡ true
    → passes recovering m cs ≡ true
emergency_needs_recovery m cs n h r = stopped-passes m cs n (ground arith) r

-- The accepted transitions of a history.
abbrev weight : RuntimeStateMachine → Call → ℕ
weight m (transits target reason) = if is_valid_transition m.state target then 1 else 0
weight m _ = 0

pub accepted : RuntimeStateMachine → List Call → ℕ
accepted m [] = 0
accepted m (c ∷ cs) = weight m c + accepted (step m c).0 cs

abbrev pub is_transit : Call → Bool
is_transit (transits target reason) = true
is_transit _ = false

length-notify_all : (cs : List ℕ) (f t : RuntimeState) → length (notify_all cs f t) ≡ length cs
unfolding notify_all
length-notify_all [] f t = refl
length-notify_all (c ∷ cs) f t = omega (arith, length-notify_all cs f t)

transit-step :
    (m : RuntimeStateMachine) (c : Call)
    → is_transit c ≡ true
    → ((step m c).0.callbacks ≡ m.callbacks)
      × (length (step m c).1 ≡ length m.callbacks * weight m c)
unfolding step transition
transit-step m (transits target reason) t =
    ground (arith, length-notify_all m.callbacks m.state target)
transit-step m initializes t = cc
transit-step m shuts_down t = cc
transit-step m (registers k) t = cc

transit-count :
    (m : RuntimeStateMachine) (c : Call)
    → is_transit c ≡ true
    → m.state_change_count < u64_mod
    → (step m c).0.state_change_count ≡ u64 (m.state_change_count + weight m c)
unfolding step transition
transit-count m (transits target reason) t b = ground arith
transit-count m initializes t b = cc
transit-count m shuts_down t b = cc
transit-count m (registers k) t b = cc

-- Over any history of `transition` calls the change counter grows by the number of accepted calls,
-- modulo 2^64, and each accepted call has called every registered callback: so many callback calls
-- are made as there are accepted transitions times callbacks.
pub changes_accounted :
    (m : RuntimeStateMachine) (cs : List Call)
    → All (λ c. is_transit c ≡ true) cs
    → m.state_change_count < u64_mod
    → ((run m cs).state_change_count ≡ u64 (m.state_change_count + accepted m cs))
      × (length (run_sent m cs) ≡ length m.callbacks * accepted m cs)
unfolding run run_sent accepted
changes_accounted m [] t b = ground arith
changes_accounted m (c ∷ cs) t b =
    let count = transit-count m c t.0 b in
    let effects = transit-step m c t.0 in
    let later = changes_accounted (step m c).0 cs t.1 (omega arith) in
    (
      omega arith,
      rw (length-append (step m c).1 (run_sent (step m c).0 cs), effects.1, later.1, effects.0)
          (grind arith),
    )
