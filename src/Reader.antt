-- ===== src/Reader.antt =====
-- The reader of a source that the program follows as a replica (internal/reader/sync_standalone_reader.go).
pub mod Receive
