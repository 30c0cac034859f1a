-- ===== src/State.antt =====
-- The state that the daemon keeps: crates/argus-state.
pub mod Rows
pub mod Memory
