-- ===== src/Pkg.antt =====
-- The helper packages, internal/pkg.
pub mod Hostname
pub mod Apptime
pub mod LockId
pub mod ApiKeyHash
