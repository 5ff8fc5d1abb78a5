-- ===== src/User.antt =====
-- The programs of the user space.
pub mod Tractius
