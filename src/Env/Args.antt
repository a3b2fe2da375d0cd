-- ===== src/Env/Args.antt =====
-- pkg/env/env_args.go: how a query's compiled expressions become argument sets.
pub mod Product
pub mod Generate
pub mod Uniq
pub mod Batch
