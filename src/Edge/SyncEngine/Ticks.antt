-- ===== src/Edge/SyncEngine/Ticks.antt =====
-- What the ticks of edge_runtime/edge_sync_engine.cpp do.
use rfidsystem.Prelude.{
  ℕ, ◌==◌, ◌≡◌, refl, inl, inr, Bool, true, false, not, ◌&&◌, List, [], ◌∷◌, arith, length, keep,
  Bool-cases,
}
use rfidsystem.Edge.SyncEngine.{
  EdgeSyncEngine, new_engine, initialize, shutdown, add_sync_data, process_pending, sync, is_synced,
  tick, clear_pending,
}
use rfidsystem.Replay.Bytes.{Bytes}

pub data Call : Type 0 where
  initializes shutdowns ticks syncs clears : Call
  adds : ℕ → Bytes → Call

unfoldable pub step : Call → EdgeSyncEngine → EdgeSyncEngine
step initializes e = initialize e
step shutdowns e = shutdown e
step ticks e = tick e
step syncs e = sync e
step clears e = clear_pending e
step (adds timestamp content) e = add_sync_data timestamp content e

unfoldable pub run : List Call → EdgeSyncEngine → EdgeSyncEngine
run [] e = e
run (c ∷ cs) e = run cs (step c e)

-- Without the ticks.
unfoldable pub is_tick : Call → Bool
is_tick initializes = false
is_tick shutdowns = false
is_tick ticks = true
is_tick syncs = false
is_tick clears = false
is_tick (adds timestamp content) = false

-- An engine that is synchronised has nothing to synchronise.
abbrev IsSettled : EdgeSyncEngine → Type 0
IsSettled e = (is_synced e.status && not (length e.pending_sync == 0)) ≡ false

tick_idle : (e : EdgeSyncEngine) → IsSettled e → tick e ≡ e
unfolding tick
tick_idle e h = rw h refl

step-IsSettled : (c : Call) (e : EdgeSyncEngine) → IsSettled e → IsSettled (step c e)
unfolding step initialize shutdown sync process_pending clear_pending add_sync_data is_synced
step-IsSettled initializes e h = refl
step-IsSettled shutdowns e h = ground arith
step-IsSettled ticks e h = rw (tick_idle e h) h
step-IsSettled syncs e h = elim (Bool-cases (length e.pending_sync == 0)) [
  | inl none_left ↦ rw none_left (ground (arith, none_left))
  | inr some_left ↦ rw some_left refl
]
step-IsSettled clears e h = refl
step-IsSettled (adds timestamp content) e h = refl

-- The calls of a history without its ticks.
abbrev pub ticks_left_out : List Call → List Call
ticks_left_out cs = keep (λ c. not (is_tick c)) cs

ticks_change_nothing :
    (cs : List Call) (e : EdgeSyncEngine) → IsSettled e → run cs e ≡ run (ticks_left_out cs) e
unfolding run is_tick step
ticks_change_nothing [] e h = refl
ticks_change_nothing (initializes ∷ cs) e h =
    ticks_change_nothing cs (initialize e) (step-IsSettled initializes e h)
ticks_change_nothing (shutdowns ∷ cs) e h =
    ticks_change_nothing cs (shutdown e) (step-IsSettled shutdowns e h)
ticks_change_nothing (ticks ∷ cs) e h = rw (tick_idle e h) (ticks_change_nothing cs e h)
ticks_change_nothing (syncs ∷ cs) e h = ticks_change_nothing cs (sync e) (step-IsSettled syncs e h)
ticks_change_nothing (clears ∷ cs) e h =
    ticks_change_nothing cs (clear_pending e) (step-IsSettled clears e h)
ticks_change_nothing (adds t content ∷ cs) e h =
    ticks_change_nothing cs (add_sync_data t content e) (step-IsSettled (adds t content) e h)

-- Over every history of a new engine, the ticks change nothing: data that was added waits until `sync` is
-- called, however often the engine ticks.
pub ticks_never_sync : (cs : List Call) → run cs new_engine ≡ run (ticks_left_out cs) new_engine
unfolding new_engine is_synced
ticks_never_sync cs = ticks_change_nothing cs new_engine refl
