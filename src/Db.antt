-- ===== src/Db.antt =====
-- server/db: the database connections.
pub mod DbPool
