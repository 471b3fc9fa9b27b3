-- ===== src/Runtime/ControlPlane/Modes.antt =====
-- The mode of server/runtime/runtime_control_plane.cpp over every history of calls.
use rfidsystem.Prelude.{
  ℕ, ◌≡◌, refl, ap, ◌∙◌, Bool, true, false, List, [], ◌∷◌, ◌++◌, map, arith, All,
}
use rfidsystem.Runtime.ControlPlane.{
  RuntimeMode, normal, inspect, emergency, stop_ai, resume_ai, Floats, ControlState,
  RuntimeControlPlane, new_state, new_plane, initialize, shutdown, apply_command, update_mode,
  notify_state_change, settle, execute_command, set_inspect_mode, enter_emergency_mode,
  exit_emergency_mode, register_state_change_callback, Call, initializes, shuts_down,
  enters_emergency, exits_emergency, executes, sets_inspect, registers, step, run,
}

-- The mode for the flags of emergency and inspection; DEBUG is no mode of the control plane.
abbrev pub told : Bool → Bool → RuntimeMode
told true i = emergency
told false true = inspect
told false false = normal

abbrev pub IsCoherent : {F : Type 0} → ControlState F → Type 0
IsCoherent s = s.current_mode ≡ told s.emergency_mode s.inspect_mode

abbrev pub Announced : {F : Type 0} → List (ℕ × ControlState F) → Type 0
Announced es = All (λ e. IsCoherent e.1) es

update_mode-IsCoherent : {F : Type 0} (s : ControlState F) → IsCoherent (update_mode s)
unfolding update_mode
update_mode-IsCoherent s = ground arith

told_all :
    {F : Type 0} (s : ControlState F) (ks : List ℕ)
    → IsCoherent s
    → Announced (map (λ k. (k, s)) ks)
told_all s [] h = tt
told_all s (k ∷ ks) h = (h, told_all s ks h)

told_append :
    {F : Type 0} (xs ys : List (ℕ × ControlState F))
    → Announced xs
    → Announced ys
    → Announced (xs ++ ys)
told_append [] ys h k = k
told_append (x ∷ xs) ys h k = (h.0, told_append xs ys h.1 k)

settle-IsCoherent :
    {F : Type 0} (s : ControlState F) (p : RuntimeControlPlane F)
    → IsCoherent (settle s p).0.state × Announced (settle s p).1
unfolding settle notify_state_change
settle-IsCoherent s p =
    let h = update_mode-IsCoherent s in (h, told_all (update_mode s) p.callbacks h)

new_state-IsCoherent : (fl : Floats) → IsCoherent (new_state fl)
unfolding new_state
new_state-IsCoherent fl = refl

step-IsCoherent :
    (fl : Floats) (p : RuntimeControlPlane fl.F) (c : Call fl.F)
    → IsCoherent p.state
    → IsCoherent (step fl p c).0.state × Announced (step fl p c).1
unfolding step initialize shutdown set_inspect_mode enter_emergency_mode exit_emergency_mode
    execute_command register_state_change_callback
step-IsCoherent fl p initializes h = (new_state-IsCoherent fl, tt)
step-IsCoherent fl p shuts_down h = (h, tt)
step-IsCoherent fl p enters_emergency h = settle-IsCoherent _ p
step-IsCoherent fl p exits_emergency h = settle-IsCoherent _ p
step-IsCoherent fl p (executes c f x now) h = settle-IsCoherent _ p
step-IsCoherent fl p (sets_inspect e) h = settle-IsCoherent _ p
step-IsCoherent fl p (registers k) h = (h, tt)

run-IsCoherent :
    (fl : Floats) (p : RuntimeControlPlane fl.F) (cs : List (Call fl.F))
    → IsCoherent p.state
    → IsCoherent (run fl p cs).0.state × Announced (run fl p cs).1
unfolding run
run-IsCoherent fl p [] h = (h, tt)
run-IsCoherent fl p (c ∷ cs) h =
    let now = step-IsCoherent fl p c h in
    let later = run-IsCoherent fl (step fl p c).0 cs now.0 in
    (later.0, told_append (step fl p c).1 (run fl (step fl p c).0 cs).1 now.1 later.1)

-- After any history of calls on a new control plane the mode is EMERGENCY when the emergency flag is
-- set, else INSPECT when the inspect flag is, else NORMAL, and every callback that was called got such
-- a state.
pub mode_agrees :
    (fl : Floats) (cs : List (Call fl.F))
    → IsCoherent (run fl (new_plane fl) cs).0.state × Announced (run fl (new_plane fl) cs).1
unfolding new_plane
mode_agrees fl cs = run-IsCoherent fl (new_plane fl) cs (new_state-IsCoherent fl)

-- Calls other than `initialize` and `exitEmergencyMode`.
abbrev pub stays : {F : Type 0} → Call F → Bool
stays initializes = false
stays exits_emergency = false
stays _ = true

-- What the last call that is about the AI said, for calls that stay in the emergency.
abbrev pub says : {F : Type 0} → Bool → Call F → Bool
says b enters_emergency = false
says b (executes stop_ai f x now) = false
says b (executes resume_ai f x now) = true
says b _ = b

pub last_said : {F : Type 0} → Bool → List (Call F) → Bool
last_said b [] = b
last_said b (c ∷ cs) = last_said (says b c) cs

emergency-step :
    (fl : Floats) (p : RuntimeControlPlane fl.F) (c : Call fl.F)
    → stays c ≡ true
    → p.state.emergency_mode ≡ true
    → ((step fl p c).0.state.emergency_mode ≡ true)
      × ((step fl p c).0.state.ai_enabled ≡ says p.state.ai_enabled c)
unfolding step shutdown set_inspect_mode enter_emergency_mode execute_command settle update_mode
    register_state_change_callback apply_command
emergency-step fl p (executes c f x now) k h = ground arith
emergency-step fl p initializes k h = ground arith
emergency-step fl p shuts_down k h = (h, refl)
emergency-step fl p enters_emergency k h = (refl, refl)
emergency-step fl p exits_emergency k h = ground arith
emergency-step fl p (sets_inspect e) k h = (h, refl)
emergency-step fl p (registers n) k h = (h, refl)

emergency-run :
    (fl : Floats) (p : RuntimeControlPlane fl.F) (cs : List (Call fl.F))
    → All (λ c. stays c ≡ true) cs
    → p.state.emergency_mode ≡ true
    → ((run fl p cs).0.state.emergency_mode ≡ true)
      × ((run fl p cs).0.state.ai_enabled ≡ last_said p.state.ai_enabled cs)
unfolding run last_said
emergency-run fl p [] k h = (h, refl)
emergency-run fl p (c ∷ cs) k h =
    let now = emergency-step fl p c k.0 h in
    let later = emergency-run fl (step fl p c).0 cs k.1 now.0 in
    (later.0, later.1 ∙ ap (λ b. last_said b cs) now.1)

-- After `enterEmergencyMode`, over any history without `initialize` and `exitEmergencyMode`, the
-- emergency flag stays set, and the AI is enabled exactly when the last call about it was a RESUME_AI
-- command, which is carried out in the emergency too.
pub emergency_holds :
    (fl : Floats) (p : RuntimeControlPlane fl.F) (cs : List (Call fl.F))
    → All (λ c. stays c ≡ true) cs
    → ((run fl (enter_emergency_mode p).0 cs).0.state.emergency_mode ≡ true)
      × ((run fl (enter_emergency_mode p).0 cs).0.state.ai_enabled ≡ last_said false cs)
unfolding enter_emergency_mode settle update_mode
emergency_holds fl p cs k = emergency-run fl (enter_emergency_mode p).0 cs k refl
