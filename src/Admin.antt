-- ===== src/Admin.antt =====
-- The administration of roles: src/admin/roles.
pub mod Roles
mod Tests
