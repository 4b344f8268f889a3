-- ===== src/Download.antt =====
-- The client's choice of pieces: PiecesToDownload of src/bittorrent_client/main.cpp.
pub mod Pieces
pub mod Account
pub mod Store
pub mod Sizes
pub mod Peer
pub mod Owned
pub mod Held
pub mod Kept
pub mod Rounds
