-- ===== src/Network.antt =====
-- The network domain of crates/network: friends, presence, worlds, the join flow and the relay.
pub mod Store
pub mod Effect
pub mod Query
pub mod Ticket
pub mod Join
pub mod Friends
pub mod Invites
pub mod Presence
pub mod Worlds
pub mod Cleanup
pub mod Relay
mod Tests
