-- ===== src/Runtime.antt =====
-- src/agent_foundation: the runtime that serves an agent's tasks, with the idempotency cache.
pub mod Cache
pub mod Messages
pub mod Discovery
pub mod Host
pub mod Service
mod Tests
