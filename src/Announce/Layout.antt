-- ===== src/Announce/Layout.antt =====
-- The bytes of the UDP tracker protocol, as its specification (BEP 15) lays them out.
use bittorrent_client.Base.{
  ℕ, suc, ◌+◌, ◌^◌, ◌<◌, ◌≡◌, refl, ap, sym, ◌∙◌, true, some, List, [], ◌∷◌, ◌++◌, ok, arith,
  length, replicate, length-append, append-nil,
}
use bittorrent_client.Wire.Endian.{
  network_of, length-memory_of, memory_of-endian_reverse16, word_of, memory_of, endian_reverse16,
  endian_reverse64,
}
use bittorrent_client.Wire.Endian64.{
  memory_of-endian_reverse64, endian_reverse64-lt, endian_reverse64-endian_reverse64,
}
use bittorrent_client.Wire.Bytes.{
  make_writer, make_reader, finalize_reader, write_all-concat, read_next, read_last, concat,
}
use bittorrent_client.Wire.Messages.{big32}
use bittorrent_client.Wire.Framing.{big32-network, from_big32-big32, length-big32}
use bittorrent_client.Announce.Messages.{
  big64, from_big64, big16, UdpConnect, serialize_connect, parse_connect, UdpAnnounce,
  serialize_announce,
}

pub length-big64 : (x : ℕ) → length (big64 x) ≡ 8
unfolding big64
length-big64 x = length-memory_of 8 (endian_reverse64 x)

word_of-memory_of64 : (x : ℕ) → x < 2 ^ 64 → word_of (memory_of 8 x) ≡ x
unfolding word_of memory_of
word_of-memory_of64 x h = omega arith

pub make_reader_lem :
    (n : ℕ) (s r : List ℕ)
    → length s ≡ suc n
    → make_reader (s ++ r) ≡ record { rest = s ++ r; valid = true }
unfolding make_reader
make_reader_lem n s r h = ground (arith, length-append s r)

-- What the tracker answers to a connect.
abbrev pub connect_answer : UdpConnect → List ℕ
connect_answer m =
    network_of 4 m.action ++ (network_of 4 m.transaction_id ++ network_of 8 m.connection_id)

-- What the client asks.
abbrev pub connect_question : UdpConnect → List ℕ
connect_question m =
    network_of 8 m.connection_id ++ (network_of 4 m.action ++ network_of 4 m.transaction_id)

pub big64-network : (x : ℕ) → x < 2 ^ 64 → big64 x ≡ network_of 8 x
unfolding big64
big64-network x h = memory_of-endian_reverse64 x h

big16-network : (x : ℕ) → x < 2 ^ 16 → big16 x ≡ network_of 2 x
unfolding big16
big16-network x h = memory_of-endian_reverse16 x h

length-big16 : (x : ℕ) → length (big16 x) ≡ 2
unfolding big16
length-big16 x = length-memory_of 2 (endian_reverse16 x)

from_big64-big64 : (x : ℕ) → x < 2 ^ 64 → from_big64 (big64 x) ≡ x
unfolding from_big64 big64
from_big64-big64 x h =
    ap endian_reverse64 (word_of-memory_of64 (endian_reverse64 x) (endian_reverse64-lt x h))
    ∙ endian_reverse64-endian_reverse64 x h

abbrev total_size : List (List ℕ) → ℕ
total_size [] = 0
total_size (part ∷ parts) = length part + total_size parts

length-concat : (parts : List (List ℕ)) → length (concat parts) ≡ total_size parts
length-concat [] = refl
length-concat (part ∷ parts) = omega (arith, length-append part (concat parts), length-concat parts)

pub serialize_connect_lem :
    (m : UdpConnect)
    → m.action < 2 ^ 32
    → m.transaction_id < 2 ^ 32
    → m.connection_id < 2 ^ 64
    → serialize_connect m ≡ some (connect_question m)
unfolding serialize_connect make_writer
serialize_connect_lem m h1 h2 h3 =
    let parts : List (List ℕ) =
      big64 m.connection_id ∷ big32 m.action ∷ big32 m.transaction_id ∷ [] in
    write_all-concat parts (make_writer 16) (
      omega (
        arith,
        length-concat parts,
        length-big64 m.connection_id,
        length-big32 m.action,
        length-big32 m.transaction_id,
      ))
    ∙ rw
        (
          append-nil (big32 m.transaction_id),
          big32-network m.action h1,
          big32-network m.transaction_id h2,
          big64-network m.connection_id h3,
        )
        refl

-- The fields fit their words, and the hashes are of 20 bytes.
pub record IsWellFormed (m : UdpAnnounce) : Type 0 where
  pub connection_id-lt : m.connection_id < 2 ^ 64
  pub action-lt : m.action < 2 ^ 32
  pub transaction_id-lt : m.transaction_id < 2 ^ 32
  pub length-info_hash : length m.info_hash ≡ 20
  pub length-peer_id : length m.peer_id ≡ 20
  pub downloaded-lt : m.downloaded < 2 ^ 64
  pub left-lt : m.left < 2 ^ 64
  pub uploaded-lt : m.uploaded < 2 ^ 64
  pub event-lt : m.event < 2 ^ 32
  pub ip-lt : m.ip < 2 ^ 32
  pub key-lt : m.key < 2 ^ 32
  pub num_want-lt : m.num_want < 2 ^ 32
  pub port-lt : m.port < 2 ^ 16

abbrev pub announce_question : UdpAnnounce → List ℕ
announce_question m =
    network_of 8 m.connection_id
    ++ (network_of 4 m.action
        ++ (network_of 4 m.transaction_id
            ++ (m.info_hash
                ++ (m.peer_id
                    ++ (network_of 8 m.downloaded
                        ++ (network_of 8 m.left
                            ++ (network_of 8 m.uploaded
                                ++ (network_of 4 m.event
                                    ++ (network_of 4 m.ip
                                        ++ (network_of 4 m.key
                                            ++ (network_of 4 m.num_want
                                                ++ network_of 2 m.port)))))))))))

-- Message_UDP_Announce::serialize, with fields that fit their words and hashes of 20 bytes, passes every
-- assertion of the writer and gives the thirteen fields in the order of BEP 15, every word in network order.
pub serialize_announce_lem :
    (m : UdpAnnounce) → IsWellFormed m → serialize_announce m ≡ some (announce_question m)
unfolding serialize_announce make_writer
serialize_announce_lem m w =
    let parts : List (List ℕ) =
      big64 m.connection_id
      ∷ big32 m.action
      ∷ big32 m.transaction_id
      ∷ m.info_hash
      ∷ m.peer_id
      ∷ big64 m.downloaded
      ∷ big64 m.left
      ∷ big64 m.uploaded
      ∷ big32 m.event
      ∷ big32 m.ip
      ∷ big32 m.key
      ∷ big32 m.num_want
      ∷ big16 m.port
      ∷ [] in
    write_all-concat parts (make_writer 98) (
      omega (
        arith,
        length-concat parts,
        length-big64 m.connection_id,
        length-big32 m.action,
        length-big32 m.transaction_id,
        w.length-info_hash,
        w.length-peer_id,
        length-big64 m.downloaded,
        length-big64 m.left,
        length-big64 m.uploaded,
        length-big32 m.event,
        length-big32 m.ip,
        length-big32 m.key,
        length-big32 m.num_want,
        length-big16 m.port,
      ))
    ∙ rw
        (
          append-nil (big16 m.port),
          big64-network m.connection_id w.connection_id-lt,
          big32-network m.action w.action-lt,
          big32-network m.transaction_id w.transaction_id-lt,
          big64-network m.downloaded w.downloaded-lt,
          big64-network m.left w.left-lt,
          big64-network m.uploaded w.uploaded-lt,
          big32-network m.event w.event-lt,
          big32-network m.ip w.ip-lt,
          big32-network m.key w.key-lt,
          big32-network m.num_want w.num_want-lt,
          big16-network m.port w.port-lt,
        )
        refl

pub parse_connect-connect_answer :
    (m : UdpConnect)
    → m.action < 2 ^ 32
    → m.transaction_id < 2 ^ 32
    → m.connection_id < 2 ^ 64
    → parse_connect (connect_answer m) ≡ ok m
unfolding parse_connect finalize_reader
parse_connect-connect_answer m h1 h2 h3 =
    rw
      (
        sym (big32-network m.action h1),
        sym (big32-network m.transaction_id h2),
        sym (big64-network m.connection_id h3),
        make_reader_lem 3 (big32 m.action) (big32 m.transaction_id ++ big64 m.connection_id)
            (length-big32 m.action),
        read_next 4 (big32 m.action) (big32 m.transaction_id ++ big64 m.connection_id)
            (replicate 4 0) (length-big32 m.action),
        read_next 4 (big32 m.transaction_id) (big64 m.connection_id) (replicate 4 0)
            (length-big32 m.transaction_id),
        read_last 8 (big64 m.connection_id) (memory_of 8 0x41727101980)
            (length-big64 m.connection_id),
        from_big32-big32 m.action h1,
        from_big32-big32 m.transaction_id h2,
        from_big64-big64 m.connection_id h3,
      )
      refl
