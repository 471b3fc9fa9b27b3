-- ===== src/Runtime/ControlPlane/Examples.antt =====
-- The control plane at concrete commands; a level of the GPU's throttle is given in tenths.
use rfidsystem.Prelude.{ℕ, ltb, ◌≡◌, refl, true, false, List, [], ◌∷◌, length}
use rfidsystem.Runtime.ControlPlane.{
  stop_ai, resume_ai, isolate_factory, restore_factory, throttle_gpu, Floats, new_state, new_plane,
  at_least_min, apply_command, update_mode, notify_state_change, settle, execute_command,
  set_inspect_mode, enter_emergency_mode, exit_emergency_mode, register_state_change_callback,
  mode_name, get_status_string, Call, enters_emergency, exits_emergency, executes, sets_inspect,
  registers, step, run,
}
use rfidsystem.Runtime.ControlPlane.Modes.{
  IsCoherent, Announced, last_said, mode_agrees, emergency_holds,
}
use rfidsystem.Runtime.ControlPlane.Isolation.{isolation_holds}

abbrev tenths : Floats
tenths = record { F = ℕ; one = 10; min_throttle_level = 1; lt = ltb }

abbrev calls : List (Call ℕ)
calls =
    registers 7
    ∷ executes throttle_gpu 0 0 100
    ∷ sets_inspect true
    ∷ executes resume_ai 0 0 200
    ∷ executes restore_factory 4 0 300
    ∷ []

calls-run :
    (get_status_string (run tenths (new_plane tenths) calls).0
      ≡ "INSPECT" ∷ " | AI:" ∷ "ON" ∷ " | Frame:" ∷ "RUNNING" ∷ " | GPU:" ∷ "THROTTLED" ∷ [])
    × ((run tenths (new_plane tenths) calls).0.state.gpu_throttle_level ≡ 1)
    × (length (run tenths (new_plane tenths) calls).1 ≡ 4)
unfolding get_status_string mode_name run step new_plane new_state execute_command apply_command
    settle update_mode notify_state_change set_inspect_mode register_state_change_callback
    at_least_min
calls-run = (refl, refl, refl)

-- An AI that was stopped by command is enabled by the end of an emergency.
stopped_before :
    (run tenths
      (new_plane tenths)
      (executes stop_ai 0 0 100 ∷ enters_emergency ∷ exits_emergency ∷ [])).0.state.ai_enabled
    ≡ true
unfolding run step new_plane execute_command apply_command settle update_mode enter_emergency_mode
    exit_emergency_mode
stopped_before = refl

mode_agrees_example :
    IsCoherent (run tenths (new_plane tenths) calls).0.state
    × Announced (run tenths (new_plane tenths) calls).1
mode_agrees_example = mode_agrees tenths calls

emergency_holds_example :
    ((run tenths (enter_emergency_mode (new_plane tenths)).0 calls).0.state.emergency_mode ≡ true)
    × ((run tenths (enter_emergency_mode (new_plane tenths)).0 calls).0.state.ai_enabled
        ≡ last_said false calls)
emergency_holds_example =
    emergency_holds tenths (new_plane tenths) calls (refl, (refl, (refl, (refl, (refl, tt)))))

isolation-one :
    let q =
      (run tenths (execute_command tenths isolate_factory 3 0 50 (new_plane tenths)).0.0 calls).0 in
    (q.state.isolated_factory ≡ 3)
    × ((execute_command tenths restore_factory 3 0 50 q).0.0.state.isolated_factory ≡ 0)
isolation-one =
    isolation_holds tenths 3 0 50 (new_plane tenths) calls
      (refl, (refl, (refl, (refl, (refl, tt)))))
