-- ===== src/Runtime/MicroKernel/Examples.antt =====
-- The microkernel at concrete inputs.
use rfidsystem.Prelude.{◌≤◌, ◌≡◌, refl, ◌≢◌, ◌↔◌, ◌⊎◌, true, false, not, arith}
use rfidsystem.Prelude.Int.{pos, ◌≤ℤ◌}
use rfidsystem.Runtime.MicroKernel.{
  normal, safe, continue, recover, emergency_stop, KernelTickContext, mode_of, tick, route,
  should_reduce_frame_rate, should_disable_ai, should_switch_to_safe_policy,
}
use rfidsystem.Runtime.MicroKernel.Modes.{gravity, routing_monotone, router_measures}

abbrev ctx : KernelTickContext
ctx = record { frame_id = 1; timestamp = 2; replay_mode = false; force_safe_policy = true }

ctx_recovers : (tick ctx (pos 40)).1.action ≡ recover
unfolding tick
ctx_recovers = refl

routing-one :
    (gravity (route (mode_of (pos 60)) (pos 60)) ≤ gravity (route (mode_of (pos 5)) (pos 5)))
    × ((route (mode_of (pos 60)) (pos 60) ≡ continue) ↔ (pos 81 ≤ℤ pos 60))
    × ((route (mode_of (pos 60)) (pos 60) ≡ emergency_stop) ↔ (pos 60 ≤ℤ pos 10))
routing-one = routing_monotone (pos 5) (pos 60) (omega arith)

router_measures_example :
    ((safe ≡ normal)
      × (should_disable_ai safe ≡ false)
      × (should_reduce_frame_rate safe ≡ false)
      × (should_switch_to_safe_policy safe ≡ false))
    ⊎ ((safe ≢ normal) × (should_disable_ai safe ≡ not (should_reduce_frame_rate safe)))
router_measures_example = router_measures safe
