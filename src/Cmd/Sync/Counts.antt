-- ===== src/Cmd/Sync/Counts.antt =====
-- The number that `verifyTable` (cmd/edg/sync.go) returns.
