-- ===== src/Examples/Messages.antt =====
-- The theorems on the messages of peers, at small ones.
use bittorrent_client.Base.{
  ℕ, ◌≡◌, refl, List, [], ◌∷◌, ◌++◌, ok, err, some, replicate, bytes_eq, arith, ltb, if◌then◌else◌,
  ◌>>=◌,
}
use bittorrent_client.Wire.Endian.{
  endian_reverse16, endian_reverse32, memory_of, network_of, memory_of-endian_reverse32,
  memory_of-endian_reverse16, endian_reverse32-endian_reverse32,
}
use bittorrent_client.Wire.Messages.{
  todo, end_of_stream, big32, serialize_handshake, parse_handshake, is_valid_handshake_response,
  read_any_message, make_message, first_byte, have_message, piece_message, piece_data,
  piece_data_size, serialize_have, serialize_base, interested, interested_message, id_byte,
}
use bittorrent_client.Wire.Handshake.{handshake_bytes, received, handshake-roundtrip}
use bittorrent_client.Wire.Framing.{frame}
use bittorrent_client.Wire.Received.{
  read_any_message-frame, read_any_message-have, read_any_message-piece, block,
}
use bittorrent_client.Wire.Sent.{serialize_have-unread, serialize_base-swallows}

memory_of-endian_reverse32_example :
    memory_of 4 (endian_reverse32 0x01020304) ≡ network_of 4 0x01020304
memory_of-endian_reverse32_example = memory_of-endian_reverse32 0x01020304 (omega arith)

memory_of-endian_reverse16_example : memory_of 2 (endian_reverse16 0x0102) ≡ network_of 2 0x0102
memory_of-endian_reverse16_example = memory_of-endian_reverse16 0x0102 (omega arith)

endian_reverse32-endian_reverse32_example :
    endian_reverse32 (endian_reverse32 0xfedcba98) ≡ 0xfedcba98
endian_reverse32-endian_reverse32_example =
    endian_reverse32-endian_reverse32 0xfedcba98 (omega arith)

abbrev some_hash : List ℕ
some_hash = replicate 20 0xaa

abbrev some_peer : List ℕ
some_peer = replicate 20 0x2d

handshake-roundtrip_example :
    (serialize_handshake some_hash some_peer ≡ some (handshake_bytes some_hash some_peer))
    × (parse_handshake (handshake_bytes some_hash some_peer) ≡ ok (received some_hash some_peer))
    × (is_valid_handshake_response (received some_hash some_peer) some_peer
        ≡ bytes_eq some_hash some_peer)
handshake-roundtrip_example = handshake-roundtrip some_hash some_peer some_peer refl refl

read_any_message-frame_example :
    read_any_message (frame (5 ∷ 0xf0 ∷ []) ++ (0 ∷ []))
    ≡ (make_message (first_byte (5 ∷ 0xf0 ∷ [])) (5 ∷ 0xf0 ∷ []) >>= λ m. ok (m, 0 ∷ []))
read_any_message-frame_example =
    read_any_message-frame (5 ∷ 0xf0 ∷ []) (0 ∷ []) (omega arith) (omega arith)

read_any_message-have_example :
    read_any_message (frame (4 ∷ big32 258) ++ (1 ∷ [])) ≡ ok (have_message 258, 1 ∷ [])
read_any_message-have_example = read_any_message-have 258 (1 ∷ []) (omega arith)

read_any_message-piece_example :
    (read_any_message (frame (7 ∷ (big32 3 ++ (big32 16384 ++ (1 ∷ 2 ∷ [])))) ++ [])
      ≡ ok (piece_message (block 3 16384 (1 ∷ 2 ∷ [])), []))
    × (piece_data (block 3 16384 (1 ∷ 2 ∷ [])) ≡ 1 ∷ 2 ∷ [])
    × (piece_data_size (block 3 16384 (1 ∷ 2 ∷ [])) ≡ 2)
read_any_message-piece_example =
    read_any_message-piece 3 16384 (1 ∷ 2 ∷ []) [] (omega arith) (omega arith) (omega arith)
      (omega arith)

serialize_have-unread_example :
    (serialize_have 7 ≡ some (big32 9 ++ 4 ∷ big32 7))
    × (read_any_message ((big32 9 ++ 4 ∷ big32 7) ++ (0 ∷ 0 ∷ []))
        ≡ (if ltb 2 4 then err end_of_stream else err todo))
serialize_have-unread_example = serialize_have-unread 7 (0 ∷ 0 ∷ [])

serialize_base-swallows_example :
    (serialize_base interested ≡ some (big32 5 ++ id_byte interested ∷ []))
    × (read_any_message ((big32 5 ++ id_byte interested ∷ []) ++ (big32 1 ++ (1 ∷ [])))
        ≡ ok (interested_message, 1 ∷ []))
unfolding big32 memory_of
serialize_base-swallows_example = serialize_base-swallows (big32 1) (1 ∷ []) refl
