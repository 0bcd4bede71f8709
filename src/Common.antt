-- ===== src/Common.antt =====
-- packages/common: what the other packages share.
pub mod Validators
pub mod Dlq
pub mod Postgres
pub mod DbSchema
