-- ===== src/Admin.antt =====
-- The admin services of the server.
pub mod Departments
