-- ===== src/Cmd.antt =====
-- cmd/edg: the command line's own logic.
pub mod Sync
pub mod Stats
