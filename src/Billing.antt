-- ===== src/Billing.antt =====
-- apps/agents/billing_entitlement: the agent that rates whether a purchase may be refunded.
pub mod Facts
pub mod Entitlement
pub mod Rules
pub mod Service
mod Tests
