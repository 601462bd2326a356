-- ===== src/Admin.antt =====
-- crates/admin: what an administrator does.
pub mod Users
mod Tests
