-- ===== src/Network/Tests.antt =====
-- The theorems of the network at concrete inputs, and runs of the handlers.
mod Sample
pub mod Joining
pub mod Inviting
pub mod Hosting
pub mod Cleaning
pub mod Visiting
pub mod Befriending
