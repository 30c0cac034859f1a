-- ===== src/Correlate.antt =====
-- The operational environment graph of crates/argus-correlate.
pub mod Graph
