-- ===== src/Runtime/ControlPlane.antt =====
-- server/runtime/runtime_control_plane.h and .cpp: the operators' switches over the runtime.
-- `float` is a parameter `F` with the constants 1.0f and MIN_THROTTLE_LEVEL and the comparison `<`. The
-- mutex makes each method one step; `initialize` does not take it. A callback is a number, and one
-- that throws is passed over, so each is called once with the new state.
pub mod Modes
pub mod Isolation
mod Examples
use rfidsystem.Prelude.{
  ℕ, ◌==◌, Bool, true, false, List, [], ◌∷◌, ◌++◌, map, String, snoc, if◌then◌else◌,
}

pub data RuntimeMode : Type 0 where
  normal inspect debug emergency : RuntimeMode

-- `unknown` is a value outside of the enumeration, which the default branch is for.
pub data ControlCommand : Type 0 where
  stop_ai resume_ai pause_frame resume_frame rollback_replay : ControlCommand
  isolate_factory restore_factory throttle_gpu restore_gpu : ControlCommand
  force_inspect_mode exit_inspect_mode shut_down restart unknown : ControlCommand

pub record Floats : Type 1 where
  pub F : Type 0
  pub one : F
  pub min_throttle_level : F
  pub lt : F → F → Bool

pub record ControlState (F : Type 0) : Type 0 where
  pub ai_enabled : Bool
  pub frame_paused : Bool
  pub gpu_throttled : Bool
  pub inspect_mode : Bool
  pub emergency_mode : Bool
  pub current_mode : RuntimeMode
  pub isolated_factory : ℕ
  pub gpu_throttle_level : F
  pub last_command_timestamp : ℕ

pub record RuntimeControlPlane (F : Type 0) : Type 0 where
  pub state : ControlState F
  pub callbacks : List ℕ

unfoldable pub new_state : (fl : Floats) → ControlState fl.F
new_state fl = record {
  ai_enabled = true;
  frame_paused = false;
  gpu_throttled = false;
  inspect_mode = false;
  emergency_mode = false;
  current_mode = normal;
  isolated_factory = 0;
  gpu_throttle_level = fl.one;
  last_command_timestamp = 0;
}

unfoldable pub new_plane : (fl : Floats) → RuntimeControlPlane fl.F
new_plane fl = record { state = new_state fl; callbacks = [] }

unfoldable pub initialize : (fl : Floats) → RuntimeControlPlane fl.F → RuntimeControlPlane fl.F
initialize fl p = record p { state = new_state fl }

unfoldable pub shutdown : {F : Type 0} → RuntimeControlPlane F → RuntimeControlPlane F
shutdown p = record p { callbacks = [] }

-- `std::max(MIN_THROTTLE_LEVEL, x)`, as the standard defines it.
unfoldable pub at_least_min : (fl : Floats) → fl.F → fl.F
at_least_min fl x = if fl.lt fl.min_throttle_level x then x else fl.min_throttle_level

-- The switch over the command: the state, and success.
unfoldable pub apply_command :
    (fl : Floats) → ControlCommand → ℕ → fl.F → ControlState fl.F → ControlState fl.F × Bool
apply_command fl stop_ai f x s = (record s { ai_enabled = false }, true)
apply_command fl resume_ai f x s = (record s { ai_enabled = true }, true)
apply_command fl pause_frame f x s = (record s { frame_paused = true }, true)
apply_command fl resume_frame f x s = (record s { frame_paused = false }, true)
apply_command fl rollback_replay f x s = (s, true)
apply_command fl isolate_factory f x s = (record s { isolated_factory = f }, true)
apply_command fl restore_factory f x s =
    (if s.isolated_factory == f then record s { isolated_factory = 0 } else s, true)
apply_command fl throttle_gpu f x s =
    (record s { gpu_throttled = true; gpu_throttle_level = at_least_min fl x }, true)
apply_command fl restore_gpu f x s =
    (record s { gpu_throttled = false; gpu_throttle_level = fl.one }, true)
apply_command fl force_inspect_mode f x s = (record s { inspect_mode = true }, true)
apply_command fl exit_inspect_mode f x s = (record s { inspect_mode = false }, true)
apply_command fl shut_down f x s = (s, true)
apply_command fl restart f x s = (s, true)
apply_command fl unknown f x s = (s, false)

unfoldable pub update_mode : {F : Type 0} → ControlState F → ControlState F
update_mode s = record s {
  current_mode = if s.emergency_mode then emergency else if s.inspect_mode then inspect else normal;
}

-- The calls of the callbacks, each with the state it gets.
unfoldable pub notify_state_change :
    {F : Type 0} → RuntimeControlPlane F → List (ℕ × ControlState F)
notify_state_change p = map (λ k. (k, p.state)) p.callbacks

-- `updateMode(); notifyStateChange();`
unfoldable pub settle :
    {F : Type 0}
    → ControlState F
    → RuntimeControlPlane F
    → RuntimeControlPlane F × List (ℕ × ControlState F)
settle s p = let p' = record p { state = update_mode s } in (p', notify_state_change p')

unfoldable pub execute_command :
    (fl : Floats)
    → ControlCommand
    → ℕ
    → fl.F
    → ℕ
    → RuntimeControlPlane fl.F
    → (RuntimeControlPlane fl.F × List (ℕ × ControlState fl.F)) × Bool
execute_command fl command factory x now p =
    let (s, success) = apply_command fl command factory x p.state in
    (settle (record s { last_command_timestamp = now }) p, success)

unfoldable pub set_inspect_mode :
    {F : Type 0} → Bool → RuntimeControlPlane F → RuntimeControlPlane F × List (ℕ × ControlState F)
set_inspect_mode enabled p = settle (record p.state { inspect_mode = enabled }) p

unfoldable pub enter_emergency_mode :
    {F : Type 0} → RuntimeControlPlane F → RuntimeControlPlane F × List (ℕ × ControlState F)
enter_emergency_mode p = settle (record p.state { emergency_mode = true; ai_enabled = false }) p

unfoldable pub exit_emergency_mode :
    {F : Type 0} → RuntimeControlPlane F → RuntimeControlPlane F × List (ℕ × ControlState F)
exit_emergency_mode p = settle (record p.state { emergency_mode = false; ai_enabled = true }) p

unfoldable pub register_state_change_callback :
    {F : Type 0} → ℕ → RuntimeControlPlane F → RuntimeControlPlane F
register_state_change_callback k p = record p { callbacks = snoc p.callbacks k }

unfoldable pub mode_name : RuntimeMode → String
mode_name normal = "NORMAL"
mode_name inspect = "INSPECT"
mode_name debug = "DEBUG"
mode_name emergency = "EMERGENCY"

-- What is written to the stream, in order.
unfoldable pub get_status_string : {F : Type 0} → RuntimeControlPlane F → List String
get_status_string p =
    mode_name p.state.current_mode
    ∷ " | AI:"
    ∷ (if p.state.ai_enabled then "ON" else "OFF")
    ∷ " | Frame:"
    ∷ (if p.state.frame_paused then "PAUSED" else "RUNNING")
    ∷ " | GPU:"
    ∷ (if p.state.gpu_throttled then "THROTTLED" else "NORMAL")
    ∷ []

-- A history of calls, with the calls of callbacks.
pub data Call (F : Type 0) : Type 0 where
  initializes shuts_down enters_emergency exits_emergency : Call F
  executes : ControlCommand → ℕ → F → ℕ → Call F
  sets_inspect : Bool → Call F
  registers : ℕ → Call F

unfoldable pub step :
    (fl : Floats)
    → RuntimeControlPlane fl.F
    → Call fl.F
    → RuntimeControlPlane fl.F × List (ℕ × ControlState fl.F)
step fl p initializes = (initialize fl p, [])
step fl p shuts_down = (shutdown p, [])
step fl p enters_emergency = enter_emergency_mode p
step fl p exits_emergency = exit_emergency_mode p
step fl p (executes c f x now) = (execute_command fl c f x now p).0
step fl p (sets_inspect e) = set_inspect_mode e p
step fl p (registers k) = (register_state_change_callback k p, [])

unfoldable pub run :
    (fl : Floats)
    → RuntimeControlPlane fl.F
    → List (Call fl.F)
    → RuntimeControlPlane fl.F × List (ℕ × ControlState fl.F)
run fl p [] = (p, [])
run fl p (c ∷ cs) =
    let (p', out) = step fl p c in let (p'', later) = run fl p' cs in (p'', out ++ later)
