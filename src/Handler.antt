-- ===== src/Handler.antt =====
-- The HTTP handlers, internal/infra/handler: how they read their parameters, call
-- the services and answer.
pub mod Params
pub mod Paths
pub mod Responses
pub mod Entries
pub mod Rankings
pub mod Tags
pub mod ApiKeys
pub mod Search
pub mod Archive
pub mod Other
