-- ===== src/Schema.antt =====
-- pkg/schema: the tables that a schema is generated from.
pub mod Tables
pub mod Generate
