-- ===== src/Db.antt =====
-- pkg/db: what the drivers share.
pub mod Batch
