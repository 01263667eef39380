-- ===== src/Core/WorkerId.antt =====
-- src/core/worker_id.py: a worker number is leased from Redis, renewed by a heartbeat, and released.
pub mod Leases
pub mod Heartbeat
pub mod Cluster
pub mod Exclusion
pub mod Unique
pub mod Fence
mod Tests
