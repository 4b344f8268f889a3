-- ===== src/Wire/Received.antt =====
-- What the client receives: a stream of frames through ReadAnyMessage.
use bittorrent_client.Base.{
  ℕ, suc, ◌+◌, ◌-◌, ◌^◌, ◌<◌, ◌≡◌, refl, ◌∙◌, false, List, [], ◌∷◌, ◌++◌, ok, ◌>>=◌, arith, ◌==◌,
  length, drop, length-append, append_assoc, replicate,
}
use bittorrent_client.Wire.Bytes.{
  finalize_reader, get_remaining, make_reader-cons, read_next, read_last,
}
use bittorrent_client.Wire.Endian.{network_of, memory_of}
use bittorrent_client.Wire.Messages.{
  big32, have_message, piece_message, make_message, first_byte, read_any_message, parse_have,
  parse_piece, Piece, piece_data, piece_data_size,
}
use bittorrent_client.Wire.Framing.{
  big32-network, from_big32-big32, length-big32, frame, async_read-append, read_any_message-prefix,
}

-- A frame of 1 to 2 ^ 32 - 1 bytes is read whole, whatever follows it: the message is the one that its
-- first byte selects, made of those bytes, and what follows the frame is left in the stream.
pub read_any_message-frame :
    (payload rest : List ℕ)
    → 0 < length payload
    → length payload < 2 ^ 32
    → read_any_message (frame payload ++ rest)
      ≡ (make_message (first_byte payload) payload >>= λ m. ok (m, rest))
read_any_message-frame payload rest hp h =
    let nonzero : (length payload == 0) ≡ false = ground arith in
    let split : frame payload ++ rest ≡ big32 (length payload) ++ (payload ++ rest) =
      rw (big32-network (length payload) h)
        (append_assoc (network_of 4 (length payload)) payload rest) in
    rw
      (
        split,
        read_any_message-prefix (length payload) (payload ++ rest) h,
        nonzero,
        async_read-append payload rest (length payload) refl,
      )
      refl

parse_have-bytes : (i : ℕ) → i < 2 ^ 32 → parse_have (4 ∷ big32 i) ≡ ok i
unfolding parse_have finalize_reader
parse_have-bytes i h =
    rw
      (
        make_reader-cons 4 (big32 i),
        read_next 1 (4 ∷ []) (big32 i) (0 ∷ []) refl,
        read_last 4 (big32 i) (replicate 4 0) (length-big32 i),
        from_big32-big32 i h,
      )
      refl

-- A Have frame of the protocol is received as Have with its piece index, for every index of 32 bits.
pub read_any_message-have :
    (i : ℕ) (rest : List ℕ)
    → i < 2 ^ 32
    → read_any_message (frame (4 ∷ big32 i) ++ rest) ≡ ok (have_message i, rest)
unfolding make_message
read_any_message-have i rest h =
    read_any_message-frame (4 ∷ big32 i) rest (omega arith) (omega (arith, length-big32 i))
    ∙ rw (parse_have-bytes i h) refl

-- The Piece that ParseNetwork makes of the bytes of a block.
abbrev pub block : ℕ → ℕ → List ℕ → Piece
block i b bytes = record {
  payload = 7 ∷ (big32 i ++ (big32 b ++ bytes));
  data_offset = 9;
  piece_index = i;
  piece_begin = b;
}

parse_piece-bytes :
    (i b : ℕ) (bytes : List ℕ)
    → i < 2 ^ 32
    → b < 2 ^ 32
    → 0 < length bytes
    → length bytes < 2 ^ 32
    → parse_piece (7 ∷ (big32 i ++ (big32 b ++ bytes))) ≡ ok (block i b bytes)
unfolding parse_piece get_remaining
parse_piece-bytes i b bytes hi hb h₀ h₁ =
    let nonzero : (length bytes == 0) ≡ false = ground arith in
    let valid : (length bytes == 2 ^ 64 - 1) ≡ false = ground arith in
    let offset : suc (length (big32 i ++ (big32 b ++ bytes))) - length bytes ≡ 9 = omega (
      arith,
      length-append (big32 i) (big32 b ++ bytes),
      length-append (big32 b) bytes,
      length-big32 i,
      length-big32 b,
    ) in
    rw
      (
        make_reader-cons 7 (big32 i ++ (big32 b ++ bytes)),
        read_next 1 (7 ∷ []) (big32 i ++ (big32 b ++ bytes)) (0 ∷ []) refl,
        read_next 4 (big32 i) (big32 b ++ bytes) (replicate 4 0) (length-big32 i),
        read_next 4 (big32 b) bytes (replicate 4 0) (length-big32 b),
        nonzero,
        valid,
        offset,
        from_big32-big32 i hi,
        from_big32-big32 b hb,
      )
      refl

drop-header : (i b : ℕ) (bytes : List ℕ) → drop 8 (big32 i ++ (big32 b ++ bytes)) ≡ bytes
unfolding big32 memory_of
drop-header i b bytes = refl

-- A Piece frame of the protocol that carries a block of at least one byte, and is shorter than
-- 2 ^ 32 bytes, is received as Piece with its index and offset, and the data of the message is the
-- block.
pub read_any_message-piece :
    (i b : ℕ) (bytes rest : List ℕ)
    → i < 2 ^ 32
    → b < 2 ^ 32
    → 0 < length bytes
    → length bytes + 9 < 2 ^ 32
    → (read_any_message (frame (7 ∷ (big32 i ++ (big32 b ++ bytes))) ++ rest)
        ≡ ok (piece_message (block i b bytes), rest))
      × (piece_data (block i b bytes) ≡ bytes)
      × (piece_data_size (block i b bytes) ≡ length bytes)
unfolding make_message piece_data piece_data_size
read_any_message-piece i b bytes rest hi hb h₀ h₁ =
    let size : length (big32 i ++ (big32 b ++ bytes)) ≡ 8 + length bytes = omega (
      arith,
      length-append (big32 i) (big32 b ++ bytes),
      length-append (big32 b) bytes,
      length-big32 i,
      length-big32 b,
    ) in
    (
      read_any_message-frame (7 ∷ (big32 i ++ (big32 b ++ bytes))) rest (omega arith)
            (omega (arith, size))
          ∙ rw (parse_piece-bytes i b bytes hi hb h₀ (omega arith)) refl,
      drop-header i b bytes,
      omega (arith, size),
    )
