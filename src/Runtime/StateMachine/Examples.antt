-- ===== src/Runtime/StateMachine/Examples.antt =====
-- Runs of the state machine, and its theorems at concrete inputs.
use rfidsystem.Prelude.{◌+◌, ◌*◌, ◌≡◌, refl, ◌⊎◌, true, false, List, [], ◌∷◌, arith, length, u64}
use rfidsystem.Runtime.StateMachine.{
  RuntimeStateMachine, Call, shuts_down, transits, registers, running, paused, recovering,
  emergency_stop, shutdown, new_machine, step, run, run_sent, can_run_ai, is_valid_transition,
}
use rfidsystem.Runtime.StateMachine.Transitions.{
  recovery_plan, follow, recoverable, transition_edges,
}
use rfidsystem.Runtime.StateMachine.Histories.{
  shutdown_final, emergency_needs_recovery, passes, accepted, changes_accounted,
}

abbrev start : List Call
start = registers 7 ∷ registers 8 ∷ transits running "boot" ∷ []

abbrev started : RuntimeStateMachine
started = run new_machine start

abbrev stopped : RuntimeStateMachine
stopped = run started (transits emergency_stop "smoke" ∷ [])

-- The second call asks for an edge that the diagram lacks.
abbrev back : List Call
back = transits running "too soon" ∷ transits recovering "checked" ∷ transits running "resume" ∷ []

back_runs : (run stopped back).state ≡ running
unfolding run step new_machine
back_runs = refl

back_counts : (run stopped back).state_change_count ≡ 4
unfolding run step new_machine
back_counts = refl

edges_of_paused :
    (is_valid_transition paused paused ≡ false)
    × ((is_valid_transition paused shutdown ≡ true) ⊎ (paused ≡ shutdown))
edges_of_paused = transition_edges paused

stopped_state : stopped.state ≡ emergency_stop
unfolding run step new_machine
stopped_state = refl

recover-one :
    ((follow stopped (recovery_plan stopped.state) "ok").0.state ≡ running)
    × ((follow stopped (recovery_plan stopped.state) "ok").1 ≡ true)
recover-one = recoverable stopped "ok" (λ e. cc (e, stopped_state))

shutdown_final_example :
    ((run (run started (shuts_down ∷ [])) back).state ≡ shutdown)
    × (run_sent (run started (shuts_down ∷ [])) back ≡ [])
unfolding run step new_machine
shutdown_final_example =
    shutdown_final (run started (shuts_down ∷ [])) back (refl, (refl, (refl, tt))) refl

emergency_needs_recovery_example : passes recovering stopped back ≡ true
unfolding run step new_machine can_run_ai
emergency_needs_recovery_example =
    emergency_needs_recovery stopped back (refl, (refl, (refl, tt))) refl refl

changes-one :
    ((run stopped back).state_change_count
      ≡ u64 (stopped.state_change_count + accepted stopped back))
    × (length (run_sent stopped back) ≡ length stopped.callbacks * accepted stopped back)
unfolding run step new_machine
changes-one = changes_accounted stopped back (refl, (refl, (refl, tt))) (omega arith)
