-- ===== src/Edge/SyncEngine/Examples.antt =====
-- The synchronisation of the edge runtime at a concrete history.
use rfidsystem.Prelude.{◌≡◌, List, [], ◌∷◌}
use rfidsystem.Edge.SyncEngine.{new_engine}
use rfidsystem.Edge.SyncEngine.Ticks.{Call, ticks, adds, run, ticks_left_out, ticks_never_sync}

abbrev history : List Call
history = ticks ∷ adds 1 (7 ∷ []) ∷ ticks ∷ ticks ∷ []

ticks_never_sync_example : run history new_engine ≡ run (ticks_left_out history) new_engine
ticks_never_sync_example = ticks_never_sync history
