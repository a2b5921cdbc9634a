-- ===== src/Infra.antt =====
-- The adapters to the outside, internal/infra.
pub mod Decimal
pub mod Hatena
pub mod Postgres
pub mod Redis
