-- ===== src/Risk.antt =====
-- apps/agents/risk_fraud: the agent that rates the fraud risk of a refund.
pub mod Signals
pub mod Rules
pub mod Evidence
pub mod Scoring
pub mod Service
mod Tests
