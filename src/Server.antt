-- ===== src/Server.antt =====
-- The middleware of the HTTP server, internal/platform/server/middleware.go, its guard in
-- cmd/app/main.go and its configuration, internal/platform/config/config.go. Logging, the panic
-- recovery, the CORS headers and the fixed security headers are left out.
pub mod RateLimit
pub mod Auth
pub mod Guard
pub mod Config
