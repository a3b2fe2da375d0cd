-- ===== src/Env/Query.antt =====
-- Queries in the driver's terms (pkg/env/env_query.go): the inlining of arguments and the native
-- placeholders in `Inline`, the run of a section's queries in `Section`.
pub mod Inline
pub mod Section
