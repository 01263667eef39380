-- ===== src/Gateway/Quota.antt =====
-- src/gateway/quota.py: quota counters in Redis, reserved before a request and settled after it.
pub mod Defs
pub mod Amounts
pub mod Script
pub mod Enforcer
pub mod Ledger
pub mod Charges
pub mod Settlement
pub mod Balance
pub mod Limits
pub mod Refusals
pub mod Fallback
pub mod Unscripted
pub mod Returning
pub mod Verdicts
mod Tests
