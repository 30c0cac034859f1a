-- ===== src/Executor.antt =====
-- The executors of crates/argus-executor.
pub mod Guardrail
pub mod Host
pub mod Remediation
pub mod Privileged
pub mod Cluster
