-- ===== src/Client.antt =====
-- TorrentClient of src/bittorrent_client/torrent_client.cpp.
pub mod Totals
pub mod Peers
pub mod Distinct
pub mod Members
pub mod Start
pub mod Requests
pub mod Requested
pub mod Addresses
pub mod Built
pub mod PeerId
pub mod Make
pub mod Made
pub mod Announce
pub mod Promise
