-- ===== src/Resolution.antt =====
-- apps/agents/customer_resolution: the agent that owns a refund case.
pub mod Models
pub mod Classifier
pub mod Drafter
pub mod Decision
pub mod Store
pub mod World
pub mod Deciding
pub mod Delegation
pub mod Handlers
pub mod Intake
pub mod Normalize
pub mod TaskResults
mod Tests
