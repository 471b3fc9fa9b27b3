-- ===== src/Runtime/StateMachine.antt =====
-- server/runtime/runtime_state_machine.h and .cpp: the singleton that holds the runtime's state.
-- A method that changes the object returns the new record. The mutex makes each method one step.
-- A callback is code of other components: it is known by a number, and the calls made are listed.
pub mod Permissions
pub mod Transitions
pub mod Histories
mod Examples
use rfidsystem.Prelude.{
  ℕ, ◌+◌, ◌==◌, Bool, true, false, ◌||◌, List, [], ◌∷◌, ◌++◌, String, u64, if◌then◌else◌, snoc,
}

pub data RuntimeState : Type 0 where
  init running degraded inspect paused recovering emergency_stop shutdown : RuntimeState

abbrev pub index : RuntimeState → ℕ
index init = 0
index running = 1
index degraded = 2
index inspect = 3
index paused = 4
index recovering = 5
index emergency_stop = 6
index shutdown = 7

-- STATE_NAMES, indexed by the enumeration's value.
unfoldable pub state_names : RuntimeState → String
state_names init = "INIT"
state_names running = "RUNNING"
state_names degraded = "DEGRADED"
state_names inspect = "INSPECT"
state_names paused = "PAUSED"
state_names recovering = "RECOVERING"
state_names emergency_stop = "EMERGENCY_STOP"
state_names shutdown = "SHUTDOWN"

-- `==` on the enumeration.
infix 50 ◌=?◌
abbrev pub ◌=?◌ : RuntimeState → RuntimeState → Bool
a =? b = index a == index b

pub record RuntimeStateMachine : Type 0 where
  pub state : RuntimeState
  pub state_name : String
  pub last_reason : String
  pub callbacks : List ℕ
  pub state_change_count : ℕ  -- std::atomic<size_t>

-- One call `callback(from, target)`.
pub record Notification : Type 0 where
  pub callback : ℕ
  pub from : RuntimeState
  pub target : RuntimeState

unfoldable pub new_machine : RuntimeStateMachine
new_machine = record {
  state = init;
  state_name = "INIT";
  last_reason = "";
  callbacks = [];
  state_change_count = 0;
}

unfoldable pub initialize : RuntimeStateMachine → RuntimeStateMachine
unfolding state_names
initialize m = record m {
  state = init;
  state_name = state_names init;
  last_reason = "System initialized";
  state_change_count = 0;
}

unfoldable pub shut_down : RuntimeStateMachine → RuntimeStateMachine
unfolding state_names
shut_down m = record m {
  state = shutdown;
  state_name = state_names shutdown;
  last_reason = "System shutdown";
}

unfoldable pub is_valid_transition : RuntimeState → RuntimeState → Bool
is_valid_transition init to = to =? running || to =? shutdown
is_valid_transition running to =
    to =? degraded || to =? inspect || to =? paused || to =? emergency_stop || to =? shutdown
is_valid_transition degraded to =
    to =? running || to =? inspect || to =? paused || to =? emergency_stop || to =? shutdown
is_valid_transition inspect to =
    to =? running || to =? degraded || to =? paused || to =? emergency_stop || to =? shutdown
is_valid_transition paused to =
    to =? running || to =? degraded || to =? recovering || to =? emergency_stop || to =? shutdown
is_valid_transition recovering to =
    to =? running || to =? degraded || to =? emergency_stop || to =? shutdown
is_valid_transition emergency_stop to = to =? recovering || to =? shutdown
is_valid_transition shutdown to = false

-- The loop over `callbacks_`. What a callback throws is swallowed, so each one is called.
unfoldable pub notify_all : List ℕ → RuntimeState → RuntimeState → List Notification
notify_all [] f t = []
notify_all (c ∷ cs) f t = record { callback = c; from = f; target = t } ∷ notify_all cs f t

unfoldable pub transition :
    RuntimeStateMachine → RuntimeState → String → RuntimeStateMachine × Bool × List Notification
unfolding is_valid_transition notify_all
transition m target reason =
    if is_valid_transition m.state target
    then (
      record m {
        state = target;
        state_name = state_names target;
        last_reason = reason;
        state_change_count = u64 (m.state_change_count + 1);
      },
      true,
      notify_all m.callbacks m.state target,
    )
    else (m, false, [])

unfoldable pub register_state_change_callback : ℕ → RuntimeStateMachine → RuntimeStateMachine
register_state_change_callback c m = record m { callbacks = snoc m.callbacks c }

unfoldable pub is_healthy : RuntimeState → Bool
is_healthy s = s =? running || s =? degraded

unfoldable pub can_run_ai : RuntimeState → Bool
can_run_ai running = true
can_run_ai degraded = true
can_run_ai inspect = false
can_run_ai paused = false
can_run_ai recovering = false
can_run_ai emergency_stop = false
can_run_ai shutdown = false
can_run_ai init = false

unfoldable pub can_render_gpu : RuntimeState → Bool
can_render_gpu running = true
can_render_gpu degraded = true
can_render_gpu inspect = true
can_render_gpu paused = false
can_render_gpu recovering = false
can_render_gpu emergency_stop = false
can_render_gpu shutdown = false
can_render_gpu init = false

unfoldable pub can_schedule_frame : RuntimeState → Bool
can_schedule_frame running = true
can_schedule_frame degraded = true
can_schedule_frame recovering = true
can_schedule_frame inspect = true
can_schedule_frame paused = false
can_schedule_frame emergency_stop = false
can_schedule_frame shutdown = false
can_schedule_frame init = false

unfoldable pub can_update_policy : RuntimeState → Bool
can_update_policy running = true
can_update_policy degraded = true
can_update_policy recovering = false
can_update_policy inspect = false
can_update_policy paused = false
can_update_policy emergency_stop = false
can_update_policy shutdown = false
can_update_policy init = false

unfoldable pub can_write_decision : RuntimeState → Bool
can_write_decision running = true
can_write_decision degraded = true
can_write_decision inspect = false
can_write_decision paused = false
can_write_decision recovering = false
can_write_decision emergency_stop = false
can_write_decision shutdown = false
can_write_decision init = false

-- A history of calls on the object: the state after it, and the callbacks' calls in order.
pub data Call : Type 0 where
  initializes shuts_down : Call
  transits : RuntimeState → String → Call
  registers : ℕ → Call

unfoldable pub step : RuntimeStateMachine → Call → RuntimeStateMachine × List Notification
unfolding initialize shut_down transition register_state_change_callback
step m initializes = (initialize m, [])
step m shuts_down = (shut_down m, [])
step m (transits target reason) =
    let (m', accepted, sent) = transition m target reason in (m', sent)
step m (registers c) = (register_state_change_callback c m, [])

unfoldable pub run : RuntimeStateMachine → List Call → RuntimeStateMachine
run m [] = m
run m (c ∷ cs) = run (step m c).0 cs

unfoldable pub run_sent : RuntimeStateMachine → List Call → List Notification
run_sent m [] = []
run_sent m (c ∷ cs) = (step m c).1 ++ run_sent (step m c).0 cs
