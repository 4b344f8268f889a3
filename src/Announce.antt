-- ===== src/Announce.antt =====
-- The announce to a UDP tracker: src/bittorrent_client/tracker_requests.cpp.
pub mod Messages
pub mod Layout
pub mod Exchange
pub mod Promise
pub mod Resume
pub mod Lengths
pub mod Served
