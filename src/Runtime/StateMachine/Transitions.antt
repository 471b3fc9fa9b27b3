-- ===== src/Runtime/StateMachine/Transitions.antt =====
-- The transition diagram of server/runtime/runtime_state_machine.cpp.
use rfidsystem.Prelude.{◌≡◌, refl, ◌≢◌, true, false, arith, List, [], ◌∷◌, String, ◌⊎◌, Bool, ◌&&◌}
use rfidsystem.Runtime.StateMachine.{
  RuntimeState, RuntimeStateMachine, running, recovering, emergency_stop, shutdown,
  is_valid_transition, transition,
}

-- The shortest way back to `running`, as targets of `transition`.
unfoldable pub recovery_plan : RuntimeState → List RuntimeState
recovery_plan running = []
recovery_plan emergency_stop = recovering ∷ running ∷ []
recovery_plan _ = running ∷ []

-- `transition` to each target in turn; the result says whether all were accepted.
unfoldable pub follow :
    RuntimeStateMachine → List RuntimeState → String → RuntimeStateMachine × Bool
follow m [] reason = (m, true)
follow m (t ∷ ts) reason =
    let (m', accepted, sent) = transition m t reason in
    let (m'', rest) = follow m' ts reason in (m'', accepted && rest)

follow_plan :
    (m : RuntimeStateMachine) (s : RuntimeState) (reason : String)
    → m.state ≡ s
    → s ≢ shutdown
    → ((follow m (recovery_plan s) reason).0.state ≡ running)
      × ((follow m (recovery_plan s) reason).1 ≡ true)
unfolding follow recovery_plan transition is_valid_transition
follow_plan m shutdown reason e h = absurd (h refl)
follow_plan m _ reason e h = ground arith

-- From every state but SHUTDOWN there is a sequence of at most two transitions, each of which
-- `transition` accepts, that ends in RUNNING: `recovery_plan` computes it.
pub recoverable :
    (m : RuntimeStateMachine) (reason : String)
    → m.state ≢ shutdown
    → ((follow m (recovery_plan m.state) reason).0.state ≡ running)
      × ((follow m (recovery_plan m.state) reason).1 ≡ true)
recoverable m reason h = follow_plan m m.state reason refl h

-- `transition` to the present state is refused, whatever that state is, and every state but
-- SHUTDOWN can be left for SHUTDOWN.
pub transition_edges :
    (s : RuntimeState)
    → (is_valid_transition s s ≡ false) × ((is_valid_transition s shutdown ≡ true) ⊎ (s ≡ shutdown))
unfolding is_valid_transition
transition_edges s = ground arith
