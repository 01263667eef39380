-- ===== src/Gateway/Events.antt =====
-- src/gateway/events.py and src/gateway/usage_batch.py: events on their way to the database.
pub mod Defs
pub mod Outbox
pub mod Replay
pub mod Stutters
pub mod Log
pub mod Pipeline
pub mod UsageBatch
pub mod Copies
pub mod Rows
pub mod Held
pub mod Moves
pub mod Claims
pub mod Kept
pub mod Flush
mod Tests
