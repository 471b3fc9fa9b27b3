-- ===== src/Runtime/MicroKernel/Modes.antt =====
-- The modes of server/runtime/kernel/microkernel.cpp and what the policy router makes of them.
use rfidsystem.Prelude.{ℕ, ◌≤◌, ◌≡◌, ◌≢◌, ◌↔◌, ◌⊎◌, false, not, arith}
use rfidsystem.Prelude.Int.{ℤ, pos, ◌≤ℤ◌}
use rfidsystem.Runtime.MicroKernel.{
  KernelMode, normal, KernelAction, no_action, continue, downgrade, recover, emergency_stop,
  mode_of, route, mode_index, should_reduce_frame_rate, should_disable_ai,
  should_switch_to_safe_policy,
}

-- How grave an action is.
abbrev pub gravity : KernelAction → ℕ
gravity no_action = 0
gravity continue = 1
gravity downgrade = 2
gravity recover = 3
gravity emergency_stop = 4

mode_monotone : (s t : ℤ) → s ≤ℤ t → mode_index (mode_of t) ≤ mode_index (mode_of s)
unfolding mode_of
mode_monotone s t h = ground arith

route_monotone :
    (m n : KernelMode) (t : ℤ)
    → mode_index m ≤ mode_index n
    → gravity (route m t) ≤ gravity (route n t)
unfolding route
route_monotone m n t h = ground arith

-- The lower the trust score, the graver the action that the router takes for its mode: CONTINUE only
-- above 80, and EMERGENCY_STOP only up to 10.
pub routing_monotone :
    (s t : ℤ)
    → s ≤ℤ t
    → (gravity (route (mode_of t) t) ≤ gravity (route (mode_of s) s))
      × ((route (mode_of t) t ≡ continue) ↔ (pos 81 ≤ℤ t))
      × ((route (mode_of t) t ≡ emergency_stop) ↔ (t ≤ℤ pos 10))
unfolding route mode_of
routing_monotone s t h = (ground (arith, mode_monotone s t h), ground arith, ground arith)

-- In every mode but NORMAL exactly one of two things happens: AI is disabled, or the frame rate is
-- reduced; in NORMAL neither is, and the policy is not switched.
pub router_measures :
    (m : KernelMode)
    → ((m ≡ normal)
        × (should_disable_ai m ≡ false)
        × (should_reduce_frame_rate m ≡ false)
        × (should_switch_to_safe_policy m ≡ false))
      ⊎ ((m ≢ normal) × (should_disable_ai m ≡ not (should_reduce_frame_rate m)))
unfolding should_disable_ai should_reduce_frame_rate should_switch_to_safe_policy
router_measures m = ground arith
