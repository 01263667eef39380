-- ===== src/Core/Sessions.antt =====
-- src/core/session_store.py: the sessions of users, access tokens on a white list and refresh tokens
-- that rotate.
pub mod Defs
pub mod Store
pub mod Spent
pub mod Runs
pub mod Once
pub mod Sweep
pub mod Named
pub mod Revoked
pub mod Rotation
mod Tests
