-- ===== src/Cloud.antt =====
-- The cloud channel of crates/argus-cloud: its bounded buffers and its reconnection.
pub mod Report
pub mod ReportQueue
pub mod LedgerBuffer
pub mod Backoff
pub mod Reconnect
pub mod Redact
