-- ===== src/Edge.antt =====
-- edge_runtime: the small runtime on a reader's host.
pub mod Cache
pub mod Scheduler
pub mod ReplayQueue
pub mod SyncEngine
