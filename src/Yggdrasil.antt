-- ===== src/Yggdrasil.antt =====
-- The Yggdrasil server of crates/yggdrasil: the rendezvous between `join` and `hasJoined`.
pub mod JoinSessions
pub mod Uuid
pub mod Handshake
pub mod Png
mod Tests
