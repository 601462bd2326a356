-- ===== src/Realtime.antt =====
-- crates/core/src/realtime.rs: the registry of signaling connections and the rendezvous of relays.
pub mod Hub
pub mod Delivery
pub mod Rendezvous
pub mod Pairing
mod Tests
