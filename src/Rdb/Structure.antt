-- ===== src/Rdb/Structure.antt =====
-- internal/rdb/structure: the encodings below the objects of an RDB file.
pub mod Int
pub mod Length
pub mod Lzf
pub mod Strings
pub mod Listpack
pub mod Ziplist
pub mod Intset
pub mod Float
pub mod Module
