-- ===== src/Tests.antt =====
-- The theorems of the other modules at concrete inputs, and runs of the modelled code.
mod Policy
mod Governor
mod Autonomy
mod Cloud
mod Procedures
mod Host
mod Control
mod Surface
mod Graph
mod Executor
mod Remediation
mod Cluster
mod Memory
mod Redact
