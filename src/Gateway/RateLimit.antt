-- ===== src/Gateway/RateLimit.antt =====
-- src/gateway/rate_limit.py: the admission control of the gateway.
pub mod Defs
pub mod Estimate
pub mod Shapes
pub mod Keys
pub mod Scripts
pub mod Gates
pub mod Releases
pub mod Rollback
pub mod TokenGate
pub mod SlotGate
pub mod Denials
pub mod Buckets
pub mod Repayment
pub mod Emergency
pub mod Degraded
mod Tests
