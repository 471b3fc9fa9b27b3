-- ===== src/Runtime/Recovery/Decisions.antt =====
-- Which actions server/runtime/runtime_recovery_engine.cpp decides on.
use rfidsystem.Prelude.{◌≡◌, ◌≢◌, ◌↔◌, ◌⊎◌, arith}
use rfidsystem.Runtime.FailureBus.{FailureEvent, spatial_localization_drift, unknown}
use rfidsystem.Runtime.Recovery.{none_needed, restart_ai, disable_overlay, emergency_stop, decide}

-- A failure calls for no action exactly when it is a localization drift or unknown, and no failure,
-- however severe, calls for restarting the AI, disabling the overlay or an emergency stop.
pub decide_range :
    {Double : Type 0} (e : FailureEvent Double)
    → ((decide e ≡ none_needed) ↔ ((e.type ≡ spatial_localization_drift) ⊎ (e.type ≡ unknown)))
      × (decide e ≢ restart_ai)
      × (decide e ≢ disable_overlay)
      × (decide e ≢ emergency_stop)
unfolding decide
decide_range e = ground arith
