-- ===== src/Announce/Messages.antt =====
-- Message_UDP_Connect, Message_UDP_Announce and Message_UDP_Announce_Response of
-- src/bittorrent_client/tracker_requests.cpp.
use bittorrent_client.Base.{
  ℕ, zero, suc, ◌-◌, ◌%◌, ◌&&◌, not, Option, none, some, List, [], ◌∷◌, Result, ok, err, leb, ltb,
  ◌==◌, if◌then◌else◌, take, drop, replicate,
}
use bittorrent_client.Wire.Endian.{endian_reverse16, endian_reverse64, memory_of, word_of}
use bittorrent_client.Wire.Bytes.{
  make_writer, write_all, BytesReader, make_reader, read_data, finalize_reader, get_remaining,
}
use bittorrent_client.Wire.Messages.{ClientError, todo, big32, from_big32}
use bittorrent_client.Tracker.Response.{PeerAddress}

-- native_to_big and big_to_native of a std::uint64_t, and native_to_big of a std::uint16_t.
unfoldable pub big64 : ℕ → List ℕ
big64 x = memory_of 8 (endian_reverse64 x)

unfoldable pub from_big64 : List ℕ → ℕ
from_big64 bytes = endian_reverse64 (word_of bytes)

unfoldable pub big16 : ℕ → List ℕ
big16 x = memory_of 2 (endian_reverse16 x)

pub record UdpConnect : Type 0 where
  pub action : ℕ
  pub transaction_id : ℕ
  pub connection_id : ℕ

-- Message_UDP_Connect::serialize.
unfoldable pub serialize_connect : UdpConnect → Option (List ℕ)
unfolding make_writer
serialize_connect m =
    write_all (big64 m.connection_id ∷ big32 m.action ∷ big32 m.transaction_id ∷ [])
      (make_writer 16)

-- Message_UDP_Connect::ParseNetwork.
unfoldable pub parse_connect : List ℕ → Result ClientError UdpConnect
unfolding make_reader finalize_reader
parse_connect buffer =
    let (action, r₁) = read_data 4 (replicate 4 0) (make_reader buffer) in
    let (transaction_id, r₂) = read_data 4 (replicate 4 0) r₁ in
    let (connection_id, r₃) = read_data 8 (memory_of 8 0x41727101980) r₂ in
    if not (finalize_reader r₃)
    then err todo
    else ok (record {
      action = from_big32 action;
      transaction_id = from_big32 transaction_id;
      connection_id = from_big64 connection_id;
    })

pub record UdpAnnounce : Type 0 where
  pub connection_id : ℕ
  pub action : ℕ
  pub transaction_id : ℕ
  pub info_hash : List ℕ
  pub peer_id : List ℕ
  pub downloaded : ℕ
  pub left : ℕ
  pub uploaded : ℕ
  pub event : ℕ
  pub ip : ℕ
  pub key : ℕ
  pub num_want : ℕ
  pub port : ℕ

-- Message_UDP_Announce::serialize.
unfoldable pub serialize_announce : UdpAnnounce → Option (List ℕ)
unfolding make_writer
serialize_announce m =
    write_all
      (big64 m.connection_id
        ∷ big32 m.action
        ∷ big32 m.transaction_id
        ∷ m.info_hash
        ∷ m.peer_id
        ∷ big64 m.downloaded
        ∷ big64 m.left
        ∷ big64 m.uploaded
        ∷ big32 m.event
        ∷ big32 m.ip
        ∷ big32 m.key
        ∷ big32 m.num_want
        ∷ big16 m.port
        ∷ [])
      (make_writer 98)

pub record UdpAnnounceResponse : Type 0 where
  pub action : ℕ
  pub transaction_id : ℕ
  pub intervals_secs : ℕ
  pub leechers : ℕ
  pub seeders : ℕ
  pub peers : List PeerAddress

abbrev pub add_peer : List ℕ → List ℕ → Option (List PeerAddress) → Option (List PeerAddress)
add_peer ipv4 port (some peers) = some (record { ipv4 = ipv4; port = port } ∷ peers)
add_peer ipv4 port none = none

-- The loop over the addresses, from `reader`, with the peers it appends. `none` where the fuel ends.
unfoldable pub read_peers : ℕ → BytesReader → Option (List PeerAddress)
unfolding get_remaining
read_peers zero reader = none
read_peers (suc fuel) reader =
    let (ipv4, r₁) = read_data 4 (replicate 4 0) reader in
    let (port, r₂) = read_data 2 (replicate 2 0) r₁ in
    let rest = read_peers fuel r₂ in
    if reader.valid && ltb 0 (get_remaining reader)
    then (if r₂.valid then add_peer ipv4 port rest else rest)
    else some []

-- The message of the five fields as they were read, and the peers.
abbrev pub response_of :
    List ℕ
    → List ℕ
    → List ℕ
    → List ℕ
    → List ℕ
    → Option (List PeerAddress)
    → Option (Result ClientError UdpAnnounceResponse)
response_of action transaction_id intervals_secs leechers seeders none = none
response_of action transaction_id intervals_secs leechers seeders (some peers) = some (
    ok (record {
      action = from_big32 action;
      transaction_id = from_big32 transaction_id;
      intervals_secs = from_big32 intervals_secs;
      leechers = from_big32 leechers;
      seeders = from_big32 seeders;
      peers = peers;
    }))

-- Message_UDP_Announce_Response::ParseNetwork on a buffer of which `actually_read` bytes are received.
-- `none` where the assertion fails.
unfoldable pub parse_announce_response :
    List ℕ → ℕ → Option (Result ClientError UdpAnnounceResponse)
unfolding make_reader finalize_reader read_peers
parse_announce_response buffer actually_read =
    let (action, r₁) = read_data 4 (replicate 4 0) (make_reader (take 20 buffer)) in
    let (transaction_id, r₂) = read_data 4 (replicate 4 0) r₁ in
    let (intervals_secs, r₃) = read_data 4 (replicate 4 0) r₂ in
    let (leechers, r₄) = read_data 4 (replicate 4 0) r₃ in
    let (seeders, r₅) = read_data 4 (replicate 4 0) r₄ in
    let peers_bytes : ℕ = actually_read - 20 in
    if not (leb 20 actually_read)
    then none
    else (if not (finalize_reader r₅)
        then some (err todo)
        else (if not (peers_bytes % 6 == 0)
            then some (err todo)
            else response_of action transaction_id intervals_secs leechers seeders
                (read_peers (suc peers_bytes) (make_reader (take peers_bytes (drop 20 buffer))))))
