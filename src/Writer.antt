-- ===== src/Writer.antt =====
-- internal/writer: what is sent to the target.
pub mod Standalone
pub mod Cluster
