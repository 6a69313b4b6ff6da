-- ===== src/Rdb.antt =====
-- The RDB file: its encodings (internal/rdb/structure), and its values as commands (internal/rdb/types).
pub mod Structure
pub mod Types
pub mod Loader
