-- ===== src/Edge/SyncEngine.antt =====
-- edge_runtime/edge_sync_engine.h and .cpp: EdgeSyncEngine, the data kept until it is synchronised.
pub mod Ticks
mod Examples
use rfidsystem.Prelude.{
  ℕ, ◌+◌, ◌==◌, Bool, true, false, not, ◌&&◌, List, [], map, length, snoc, if◌then◌else◌,
}
use rfidsystem.Replay.Bytes.{Bytes}

pub data SyncStatus : Type 0 where
  synced pending syncing failed : SyncStatus

pub record SyncEntry : Type 0 where
  pub entry_id : ℕ
  pub timestamp : ℕ
  pub content : Bytes
  pub status : SyncStatus

pub record EdgeSyncEngine : Type 0 where
  pub pending_sync : List SyncEntry
  pub status : SyncStatus

unfoldable pub new_engine : EdgeSyncEngine
new_engine = record { pending_sync = []; status = synced }

unfoldable pub initialize : EdgeSyncEngine → EdgeSyncEngine
initialize e = record { pending_sync = []; status = synced }

-- The status stays.
unfoldable pub shutdown : EdgeSyncEngine → EdgeSyncEngine
shutdown e = record e { pending_sync = [] }

unfoldable pub add_sync_data : ℕ → Bytes → EdgeSyncEngine → EdgeSyncEngine
add_sync_data timestamp content e =
    let entry : SyncEntry = record {
      entry_id = length e.pending_sync + 1;
      timestamp = timestamp;
      content = content;
      status = pending;
    } in
    record { pending_sync = snoc e.pending_sync entry; status = pending }

unfoldable pub mark_synced : SyncEntry → SyncEntry
mark_synced s = record s { status = synced }

-- The entries are marked, and then dropped.
unfoldable pub process_pending : EdgeSyncEngine → EdgeSyncEngine
process_pending e =
    let marked : EdgeSyncEngine = record e { pending_sync = map mark_synced e.pending_sync } in
    record marked { pending_sync = []; status = synced }

unfoldable pub sync : EdgeSyncEngine → EdgeSyncEngine
sync e =
    if length e.pending_sync == 0
    then record e { status = synced }
    else process_pending (record e { status = syncing })

unfoldable pub is_synced : SyncStatus → Bool
is_synced synced = true
is_synced pending = false
is_synced syncing = false
is_synced failed = false

unfoldable pub tick : EdgeSyncEngine → EdgeSyncEngine
tick e = if is_synced e.status && not (length e.pending_sync == 0) then sync e else e

unfoldable pub clear_pending : EdgeSyncEngine → EdgeSyncEngine
clear_pending e = record { pending_sync = []; status = synced }
