-- ===== src/Core.antt =====
-- crates/core: accounts, sessions and the tokens of the game handshake.
pub mod Account
pub mod Tokens
pub mod Sessions
pub mod Headers
pub mod Guard
pub mod Identity
mod Tests
