-- ===== src/Domain.antt =====
-- The domain layer, internal/domain.
pub mod Tag
pub mod Entry
pub mod ListQuery
pub mod ApiKey
