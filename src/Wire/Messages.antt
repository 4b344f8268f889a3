-- ===== src/Wire/Messages.antt =====
-- src/bittorrent_client/torrent_messages.h and torrent_messages.cpp: the messages of a peer, what
-- serialize writes and what ParseNetwork reads. A byte buffer is a list of bytes; a
-- `std::uint32_t` in it is its memory on a little-endian machine.
use bittorrent_client.Base.{
  ℕ, ◌-◌, ◌%◌, ◌^◌, Bool, ◌&&◌, Option, List, [], ◌∷◌, Result, ok, err, ◌>>=◌, leb, ◌==◌,
  if◌then◌else◌, bytes_eq, length, take, drop, replicate,
}
use bittorrent_client.Wire.Endian.{endian_reverse32, memory_of, word_of}
use bittorrent_client.Wire.Bytes.{
  make_writer, write_all, make_reader, read_data, finalize_reader, get_remaining,
}

-- ClientErrorc::TODO, and an end of the stream that asio reports.
pub data ClientError : Type 0 where
  todo end_of_stream : ClientError

-- Message_Handshake::k_protocol, "BitTorrent protocol".
abbrev pub k_protocol : List ℕ
k_protocol =
    b'B' ∷ b'i' ∷ b't' ∷ b'T' ∷ b'o' ∷ b'r' ∷ b'r' ∷ b'e' ∷ b'n' ∷ b't' ∷ b' ' ∷ b'p' ∷ b'r' ∷ b'o'
    ∷ b't' ∷ b'o' ∷ b'c' ∷ b'o' ∷ b'l' ∷ []

pub record Handshake : Type 0 where
  pub protocol_length : ℕ
  pub pstr : List ℕ
  pub reserved : List ℕ
  pub info_hash : List ℕ
  pub peer_id : List ℕ

abbrev pub no_extensions : List ℕ
no_extensions = replicate 8 0

-- Message_Handshake::SerializeDefault; `none` if an assertion of the writer fails.
unfoldable pub serialize_handshake : List ℕ → List ℕ → Option (List ℕ)
unfolding make_writer
serialize_handshake info_hash client_id =
    write_all ((length k_protocol ∷ []) ∷ k_protocol ∷ no_extensions ∷ info_hash ∷ client_id ∷ [])
      (make_writer 68)

-- Message_Handshake::ParseNetwork. A variable that no read reached keeps its first value.
unfoldable pub parse_handshake : List ℕ → Result ClientError Handshake
unfolding make_reader finalize_reader word_of
parse_handshake buffer =
    let (length_byte, r₁) = read_data 1 (0 ∷ []) (make_reader buffer) in
    let (text, r₂) = read_data (word_of length_byte) [] r₁ in
    let (extensions, r₃) = read_data 8 (replicate 8 0) r₂ in
    let (hash, r₄) = read_data 20 (replicate 20 0) r₃ in
    let (peer, r₅) = read_data 20 (replicate 20 0) r₄ in
    if finalize_reader r₅
    then ok (record {
      protocol_length = word_of length_byte;
      pstr = text;
      reserved = extensions;
      info_hash = hash;
      peer_id = peer;
    })
    else err todo

-- IsValidHandshakeResponse of src/bittorrent_client/torrent_client.cpp.
unfoldable pub is_valid_handshake_response : Handshake → List ℕ → Bool
is_valid_handshake_response response info_hash =
    (response.protocol_length == length k_protocol)
    && bytes_eq (take response.protocol_length response.pstr) k_protocol
    && bytes_eq response.info_hash info_hash

pub data PeerMessageId : Type 0 where
  choke unchoke interested not_interested have bitfield request piece cancel : PeerMessageId

unfoldable pub id_byte : PeerMessageId → ℕ
id_byte choke = 0
id_byte unchoke = 1
id_byte interested = 2
id_byte not_interested = 3
id_byte have = 4
id_byte bitfield = 5
id_byte request = 6
id_byte piece = 7
id_byte cancel = 8

-- `native_to_big` of a std::uint32_t, as it is written.
unfoldable pub big32 : ℕ → List ℕ
big32 x = memory_of 4 (endian_reverse32 x)

-- `big_to_native` of a std::uint32_t that was read.
unfoldable pub from_big32 : List ℕ → ℕ
from_big32 bytes = endian_reverse32 (word_of bytes)

-- Message_Base::serialize.
unfoldable pub serialize_base : PeerMessageId → Option (List ℕ)
unfolding make_writer
serialize_base id = write_all (big32 5 ∷ (id_byte id ∷ []) ∷ []) (make_writer 5)

-- Message_Have::serialize.
unfoldable pub serialize_have : ℕ → Option (List ℕ)
unfolding make_writer
serialize_have piece_index =
    write_all (big32 9 ∷ (id_byte have ∷ []) ∷ big32 piece_index ∷ []) (make_writer 9)

pub record Request : Type 0 where
  pub piece_index : ℕ
  pub offset : ℕ
  pub length : ℕ

-- Message_Request::serialize.
unfoldable pub serialize_request : Request → Option (List ℕ)
unfolding make_writer
serialize_request m =
    write_all
      (big32 17
        ∷ (id_byte request ∷ [])
        ∷ big32 m.piece_index
        ∷ big32 m.offset
        ∷ big32 m.length
        ∷ [])
      (make_writer 17)

-- Message_Have::ParseNetwork.
unfoldable pub parse_have : List ℕ → Result ClientError ℕ
unfolding make_reader finalize_reader
parse_have payload =
    let (id, r₁) = read_data 1 (0 ∷ []) (make_reader payload) in
    let (index, r₂) = read_data 4 (replicate 4 0) r₁ in
    if finalize_reader r₂ then ok (from_big32 index) else err todo

pub record Piece : Type 0 where
  pub payload : List ℕ
  pub data_offset : ℕ
  pub piece_index : ℕ
  pub piece_begin : ℕ

-- Message_Piece::ParseNetwork. `data_offset` is how far the reader got.
unfoldable pub parse_piece : List ℕ → Result ClientError Piece
unfolding make_reader get_remaining
parse_piece payload =
    let (id, r₁) = read_data 1 (0 ∷ []) (make_reader payload) in
    let (index, r₂) = read_data 4 (replicate 4 0) r₁ in
    let (begin, r₃) = read_data 4 (replicate 4 0) r₂ in
    let piece_size : ℕ = get_remaining r₃ in
    if piece_size == 0
    then err todo
    else (if piece_size == 2 ^ 64 - 1
        then err todo
        else ok (record {
          payload = payload;
          data_offset = length payload - length r₃.rest;
          piece_index = from_big32 index;
          piece_begin = from_big32 begin;
        }))

-- Message_Piece::size and the bytes at Message_Piece::data.
unfoldable pub piece_data_size : Piece → ℕ
piece_data_size m = (length m.payload - m.data_offset) % 2 ^ 32

unfoldable pub piece_data : Piece → List ℕ
piece_data m = drop m.data_offset m.payload

pub data AnyMessage : Type 0 where
  choke_message unchoke_message interested_message not_interested_message : AnyMessage
  have_message : ℕ → AnyMessage
  bitfield_message : List ℕ → AnyMessage
  request_message : Request → AnyMessage
  piece_message : Piece → AnyMessage
  cancel_message keep_alive_message unknown_message : AnyMessage

-- The switch of ReadAnyMessage on the first byte of a message. Message_Request has no ParseNetwork of
-- its own, so its fields stay 0.
unfoldable pub make_message : ℕ → List ℕ → Result ClientError AnyMessage
make_message id payload =
    if id == 0
    then ok choke_message
    else (if id == 1
        then ok unchoke_message
        else (if id == 2
            then ok interested_message
            else (if id == 3
                then ok not_interested_message
                else (if id == 4
                    then (parse_have payload >>= λ index. ok (have_message index))
                    else (if id == 5
                        then ok (bitfield_message payload)
                        else (if id == 6
                            then ok (
                                request_message
                                  (record { piece_index = 0; offset = 0; length = 0 }))
                            else (if id == 7
                                then (parse_piece payload >>= λ m. ok (piece_message m))
                                else (if id == 8
                                    then ok cancel_message
                                    else ok unknown_message))))))))

-- asio::async_read of exactly `n` bytes from a peer that sends `stream` and then closes.
abbrev pub async_read : ℕ → List ℕ → Result ClientError (List ℕ × List ℕ)
async_read n stream =
    if leb n (length stream) then ok (take n stream, drop n stream) else err end_of_stream

abbrev pub first_byte : List ℕ → ℕ
first_byte [] = 0
first_byte (b ∷ bs) = b

-- ReadAnyMessage: the message, and what is left of the stream.
unfoldable pub read_any_message : List ℕ → Result ClientError (AnyMessage × List ℕ)
unfolding make_message
read_any_message stream = async_read 4 stream >>= λ (prefix, after_prefix).
    if from_big32 prefix == 0
    then ok (keep_alive_message, after_prefix)
    else (async_read (from_big32 prefix) after_prefix >>= λ (payload, rest).
        make_message (first_byte payload) payload >>= λ m. ok (m, rest))
