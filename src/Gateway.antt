-- ===== src/Gateway.antt =====
-- src/gateway: the hot path of the LLM gateway.
pub mod Quota
pub mod RateLimit
pub mod Events
