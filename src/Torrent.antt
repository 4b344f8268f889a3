-- ===== src/Torrent.antt =====
-- The .torrent file: src/bencoding/src/be_torrent_file_parse.cpp and its header, with the value
-- parsers of be_parse_utils.h, which the tracker's response shares.
pub mod Values
pub mod Keys
pub mod Metainfo
pub mod File
pub mod Invoke
pub mod Encoded
pub mod Valid
pub mod Tables
pub mod Content
pub mod Promise
