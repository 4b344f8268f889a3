-- ===== src/Files.antt =====
-- The files that the pieces are written to: FilesList and FilesOnDisk of src/bittorrent_client/main.cpp.
pub mod Offsets
pub mod Iterate
pub mod Disk
pub mod Overwrite
pub mod Locate
pub mod Layout
pub mod Search
pub mod Contents
pub mod Step
pub mod Loop
pub mod Parts
pub mod Written
pub mod Made
pub mod Promise
