-- ===== src/Aof.antt =====
-- Append-only files: the loader of internal/aof/aof.go, and the manifest and the loop over its files of
-- internal/reader/parsing_aof.go.
pub mod Line
pub mod Single
pub mod Split
pub mod Manifest
pub mod Reader
pub mod Files
