-- ===== src/Auth/PermCache.antt =====
-- src/auth/perm_cache.py over src/core/cache.py: the permissions of a user, cached under a key that
-- holds two generations.
pub mod Defs
pub mod Readers
pub mod Generations
pub mod Fresh
pub mod Invalidation
pub mod Served
mod Tests
