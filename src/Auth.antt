-- ===== src/Auth.antt =====
-- src/auth: who may do what.
pub mod PermCache
