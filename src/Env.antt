-- ===== src/Env.antt =====
-- pkg/env: argument generation, reference data, weighted choice and the run loop.
pub mod Args
pub mod Weighted
pub mod Transaction
pub mod Ref
pub mod Agg
pub mod Query
pub mod Worker
pub mod Output
pub mod Rand
