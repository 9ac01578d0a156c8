-- ===== src/Clients.antt =====
-- Package clients: the calls of the financial data services (clients/clients.go).
pub mod Breaker
pub mod Redact
pub mod Manager
pub mod Http
pub mod Payloads
pub mod Cik
pub mod Quotes
pub mod Facts
pub mod Sec
pub mod Probe
pub mod Samples
mod Tests
