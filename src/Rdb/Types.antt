-- ===== src/Rdb/Types.antt =====
-- The values of the RDB file and the commands that write them again (internal/rdb/types).
pub mod Saved
pub mod List
pub mod Set
pub mod Zset
pub mod Hash
pub mod Object
pub mod Stream
pub mod Tair
pub mod Bloom
pub mod Module
