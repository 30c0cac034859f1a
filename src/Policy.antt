-- ===== src/Policy.antt =====
-- crates/argus-policy: who may act, how often, and with whose approval.
pub mod Budget
pub mod Escalation
pub mod Approval
pub mod Autopilot
pub mod Bootstrap
