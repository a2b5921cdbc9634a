-- ===== src/Usecase.antt =====
-- The use cases, internal/usecase.
pub mod Favicon
pub mod Ports
pub mod Ranking
pub mod Entries
pub mod Samples
pub mod Tags
pub mod Search
pub mod ApiKeys
pub mod Archive
pub mod Clicks
