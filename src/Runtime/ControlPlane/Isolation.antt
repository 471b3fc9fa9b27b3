-- ===== src/Runtime/ControlPlane/Isolation.antt =====
-- The isolated factory of server/runtime/runtime_control_plane.cpp.
use rfidsystem.Prelude.{ℕ, ◌==◌, ◌≡◌, refl, Bool, true, false, not, List, [], ◌∷◌, arith, All}
use rfidsystem.Runtime.ControlPlane.{
  isolate_factory, restore_factory, Floats, RuntimeControlPlane, shutdown, apply_command,
  update_mode, settle, execute_command, set_inspect_mode, enter_emergency_mode, exit_emergency_mode,
  register_state_change_callback, Call, initializes, executes, step, run,
}

-- Calls that do not lift or move the isolation of a factory.
abbrev pub leaves : {F : Type 0} → ℕ → Call F → Bool
leaves f initializes = false
leaves f (executes isolate_factory g x now) = g == f
leaves f (executes restore_factory g x now) = not (f == g)
leaves f _ = true

isolated-step :
    (fl : Floats) (f : ℕ) (p : RuntimeControlPlane fl.F) (c : Call fl.F)
    → leaves f c ≡ true
    → p.state.isolated_factory ≡ f
    → (step fl p c).0.state.isolated_factory ≡ f
unfolding step shutdown set_inspect_mode enter_emergency_mode exit_emergency_mode execute_command
    settle update_mode register_state_change_callback apply_command
isolated-step fl f p c k h = ground arith

isolated-run :
    (fl : Floats) (f : ℕ) (p : RuntimeControlPlane fl.F) (cs : List (Call fl.F))
    → All (λ c. leaves f c ≡ true) cs
    → p.state.isolated_factory ≡ f
    → (run fl p cs).0.state.isolated_factory ≡ f
unfolding run
isolated-run fl f p [] k h = h
isolated-run fl f p (c ∷ cs) k h =
    isolated-run fl f (step fl p c).0 cs k.1 (isolated-step fl f p c k.0 h)

isolated_now :
    (fl : Floats) (f : ℕ) (x : fl.F) (now : ℕ) (p : RuntimeControlPlane fl.F)
    → (execute_command fl isolate_factory f x now p).0.0.state.isolated_factory ≡ f
unfolding execute_command settle update_mode apply_command
isolated_now fl f x now p = refl

restored :
    (fl : Floats) (f : ℕ) (x : fl.F) (now : ℕ) (p : RuntimeControlPlane fl.F)
    → p.state.isolated_factory ≡ f
    → (execute_command fl restore_factory f x now p).0.0.state.isolated_factory ≡ 0
unfolding execute_command settle update_mode apply_command
restored fl f x now p h = ground arith

-- After ISOLATE_FACTORY of a factory, over any history that neither initializes, nor isolates another
-- factory, nor restores this one, it stays the isolated factory, and RESTORE_FACTORY of it then leaves
-- no factory isolated.
pub isolation_holds :
    (fl : Floats) (f : ℕ) (x : fl.F) (now : ℕ) (p : RuntimeControlPlane fl.F)
    (cs : List (Call fl.F))
    → All (λ c. leaves f c ≡ true) cs
    → let q = (run fl (execute_command fl isolate_factory f x now p).0.0 cs).0 in
      (q.state.isolated_factory ≡ f)
      × ((execute_command fl restore_factory f x now q).0.0.state.isolated_factory ≡ 0)
isolation_holds fl f x now p cs k =
    let p' = (execute_command fl isolate_factory f x now p).0.0 in
    let kept = isolated-run fl f p' cs k (isolated_now fl f x now p) in
    (kept, restored fl f x now (run fl p' cs).0 kept)
