-- ===== src/Bencode/Complete.antt =====
-- What the grammar describes is parsed: each parser of Bencode.Parser on encoded data.
pub mod Scalars
pub mod Switch
pub mod Elements
