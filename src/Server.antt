-- ===== src/Server.antt =====
-- The process-wide layers of crates/server: client addresses and the credential rate limiter.
pub mod Ip
pub mod RateLimit
mod Tests
