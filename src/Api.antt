-- ===== src/Api.antt =====
-- Package api: the HTTP server (api/api.go, api/auth.go).
pub mod Auth
pub mod Broker
pub mod Messages
pub mod Server
pub mod Samples
mod Tests
