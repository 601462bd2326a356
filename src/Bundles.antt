-- ===== src/Bundles.antt =====
-- crates/bundles: the builds that the launcher downloads.
pub mod Paths
pub mod Archive
pub mod Manifest
pub mod Like
pub mod Store
pub mod Repo
pub mod Admin
pub mod Tidy
mod Tests
