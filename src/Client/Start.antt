-- ===== src/Client/Start.antt =====
-- TorrentPeer::start of src/bittorrent_client/torrent_client.cpp. The peer's socket is a parameter.
use bittorrent_client.Base.{
  Bool, true, false, Option, ℕ, ◌≡◌, refl, ap, some, List, Result, ok, length, bytes_eq,
  if◌then◌else◌,
}
use bittorrent_client.Tracker.Response.{PeerAddress}
use bittorrent_client.Wire.Messages.{
  serialize_handshake, parse_handshake, is_valid_handshake_response, no_extensions,
}
use bittorrent_client.Wire.Handshake.{handshake_bytes, received, handshake-roundtrip}
use bittorrent_client.Announce.Exchange.{
  Failure, client_todo, Coroutine, co_await, co_assert, co_parsed, co_return, co_fail, resume,
  ◌>>=◌,
}
use bittorrent_client.Announce.Resume.{resume_ok, co_parsed_ok, co_assert_ok}

-- The calls on a TCP socket: async_connect, asio::async_write, and asio::async_read of so many bytes.
pub record Socket (W : Type 0) : Type 0 where
  pub async_connect : PeerAddress → W → Result Failure (Unit {0}) × W
  pub async_write : List ℕ → W → Result Failure (Unit {0}) × W
  pub async_read : ℕ → W → Result Failure (List ℕ) × W

-- What `start` stores in the peer.
pub record Started : Type 0 where
  pub peer_id : List ℕ
  pub extensions : List ℕ

module _ {W : Type 0} (socket : Socket W) where
  unfoldable pub start : PeerAddress → List ℕ → List ℕ → Coroutine W Started
  unfolding serialize_handshake parse_handshake is_valid_handshake_response resume
  start address info_hash peer_id = co_await (socket.async_connect address) >>= λ _.
      co_assert (serialize_handshake info_hash peer_id) >>= λ handshake.
      co_await (socket.async_write handshake) >>= λ _.
      co_await (socket.async_read 68) >>= λ response.
      co_parsed (parse_handshake response) >>= λ parsed.
      if is_valid_handshake_response parsed info_hash
      then co_return (record { peer_id = parsed.peer_id; extensions = parsed.reserved })
      else co_fail client_todo

  chosen :
      (b : Bool) (peer : Started) (w : W)
      → (if◌then◌else◌ {A = Coroutine W Started} b (co_return peer) (co_fail client_todo)) w
        ≡ if◌then◌else◌ {A = Option (Result Failure Started × W)} b
            (some (Result.ok peer, w))
            (some (Result.err client_todo, w))
  chosen true peer w = refl
  chosen false peer w = refl

  -- With a peer that accepts the connection and what is written, and that answers with the handshake of an info
  -- hash and a peer id of 20 bytes each: `start` writes the handshake of the client, and it gives the id of the
  -- peer if the info hash is the client's, and fails otherwise.
  pub start_lem :
      (address : PeerAddress) (info_hash peer_id other_hash other_id : List ℕ) (w₀ w₁ w₂ w₃ : W)
      → length info_hash ≡ 20
      → length peer_id ≡ 20
      → length other_hash ≡ 20
      → length other_id ≡ 20
      → socket.async_connect address w₀ ≡ (ok tt, w₁)
      → socket.async_write (handshake_bytes info_hash peer_id) w₁ ≡ (ok tt, w₂)
      → socket.async_read 68 w₂ ≡ (ok (handshake_bytes other_hash other_id), w₃)
      → start address info_hash peer_id w₀ ≡ (
          if bytes_eq other_hash info_hash
          then some (Result.ok (record { peer_id = other_id; extensions = no_extensions }), w₃)
          else some (Result.err client_todo, w₃))
  unfolding start
  start_lem address info_hash peer_id other_hash other_id w₀ w₁ w₂ w₃ h1 h2 h3 h4 c w r =
      let mine = handshake-roundtrip info_hash peer_id info_hash h1 h2 in
      let theirs = handshake-roundtrip other_hash other_id info_hash h3 h4 in
      resume_ok _ (ap some c) (
        resume_ok _
          (co_assert_ok (serialize_handshake info_hash peer_id) (handshake_bytes info_hash peer_id)
            w₁ mine.0)
          (resume_ok _ (ap some w) (
            resume_ok _ (ap some r) (
              resume_ok _
                (co_parsed_ok (parse_handshake (handshake_bytes other_hash other_id))
                  (received other_hash other_id) w₃ theirs.1)
                (rw (theirs.2) (
                  chosen (bytes_eq other_hash info_hash)
                    (record { peer_id = other_id; extensions = no_extensions }) w₃))))))
