-- ===== src/Bencode/Sound.antt =====
-- The parsers of Bencode.Parser against the grammar of Bencode.Grammar: what they accept.
pub mod Scalars
pub mod Strings
pub mod Containers
pub mod Elements
