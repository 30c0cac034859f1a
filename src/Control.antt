-- ===== src/Control.antt =====
-- The plan loop of crates/argus-daemon/src/control.rs: every step goes through the governor, the
-- policy, the budget, the autonomy matrix and the escalation decision before it takes effect.
pub mod Families
pub mod Ports
pub mod Effects
pub mod State
pub mod Step
pub mod Loop
pub mod Rollback
pub mod Execute
pub mod Admission
pub mod Authorized
pub mod Meter
pub mod Charge
pub mod Metered
pub mod Confined
pub mod Resume
pub mod Resumption
