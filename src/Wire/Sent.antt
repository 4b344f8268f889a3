-- ===== src/Wire/Sent.antt =====
-- What the client sends, read by the same ReadAnyMessage.
use bittorrent_client.Base.{
  ℕ, ◌<◌, ◌≡◌, refl, sym, false, some, List, [], ◌∷◌, ◌++◌, ok, err, arith, ◌==◌, if◌then◌else◌,
  length, take, drop, length-append, length-take, append_assoc, replicate, take-append-drop, ltb,
  lt→ltb, dec_lt, subst,
}
use bittorrent_client.Wire.Bytes.{
  make_writer, write_all-concat, finalize_reader, make_reader-cons, read_next,
}
use bittorrent_client.Wire.Endian.{memory_of}
use bittorrent_client.Wire.Messages.{
  todo, end_of_stream, big32, interested_message, interested, PeerMessageId, id_byte, make_message,
  read_any_message, parse_have, serialize_have, serialize_base, serialize_request, Request,
}
use bittorrent_client.Wire.Framing.{
  length-big32, async_read-append, async_read-short, read_any_message-prefix,
}

pub serialize_base_lem :
    (id : PeerMessageId) → serialize_base id ≡ some (big32 5 ++ id_byte id ∷ [])
unfolding serialize_base make_writer big32 memory_of
serialize_base_lem id = write_all-concat (big32 5 ∷ (id_byte id ∷ []) ∷ []) (make_writer 5) refl

pub serialize_have_lem : (i : ℕ) → serialize_have i ≡ some (big32 9 ++ 4 ∷ big32 i)
unfolding serialize_have make_writer id_byte big32 memory_of
serialize_have_lem i = write_all-concat (big32 9 ∷ (4 ∷ []) ∷ big32 i ∷ []) (make_writer 9) refl

pub serialize_request_lem :
    (m : Request)
    → serialize_request m
      ≡ some (big32 17 ++ 6 ∷ (big32 m.piece_index ++ (big32 m.offset ++ big32 m.length)))
unfolding serialize_request make_writer id_byte big32 memory_of
serialize_request_lem m =
    write_all-concat
      (big32 17 ∷ (6 ∷ []) ∷ big32 m.piece_index ∷ big32 m.offset ∷ big32 m.length ∷ [])
      (make_writer 17) refl

parse_have-longer :
    (i : ℕ) (more : List ℕ) → 0 < length more → parse_have (4 ∷ (big32 i ++ more)) ≡ err todo
unfolding parse_have finalize_reader
parse_have-longer i more h =
    let nonzero : (length more == 0) ≡ false = ground arith in
    rw
      (
        make_reader-cons 4 (big32 i ++ more),
        read_next 1 (4 ∷ []) (big32 i ++ more) (0 ∷ []) refl,
        read_next 4 (big32 i) more (replicate 4 0) (length-big32 i),
        nonzero,
      )
      refl

have-short :
    (i : ℕ) (rest : List ℕ)
    → length rest < 4
    → read_any_message ((big32 9 ++ 4 ∷ big32 i) ++ rest) ≡ err end_of_stream
have-short i rest h =
    rw
      (
        append_assoc (big32 9) (4 ∷ big32 i) rest,
        read_any_message-prefix 9 ((4 ∷ big32 i) ++ rest) (omega arith),
        async_read-short 9 ((4 ∷ big32 i) ++ rest)
            (omega (arith, length-append (big32 i) rest, length-big32 i)),
      )
      refl

have-long :
    (i : ℕ) (next rest : List ℕ)
    → length next ≡ 4
    → read_any_message ((big32 9 ++ 4 ∷ big32 i) ++ (next ++ rest)) ≡ err todo
unfolding make_message big32 memory_of
have-long i next rest h =
    rw
      (
        append_assoc (big32 9) (4 ∷ big32 i) (next ++ rest),
        read_any_message-prefix 9 ((4 ∷ big32 i) ++ (next ++ rest)) (omega arith),
        sym (append_assoc (4 ∷ big32 i) next rest),
        async_read-append ((4 ∷ big32 i) ++ next) rest 9
            (omega (arith, length-append (big32 i) next, length-big32 i)),
        parse_have-longer i next (omega arith),
      )
      refl

not_lt→ltb : (a b : ℕ) → ¬ (a < b) → ltb a b ≡ false
not_lt→ltb a b h = ground arith

-- The Have message that the client sends is not accepted by its own reader, whatever follows it in the
-- stream: the length it carries, 9, counts its own four bytes, so that the reader takes four bytes
-- too many, and reports the end of the stream if there are fewer, and an error of parsing if not.
pub serialize_have-unread :
    (i : ℕ) (rest : List ℕ)
    → (serialize_have i ≡ some (big32 9 ++ 4 ∷ big32 i))
      × (read_any_message ((big32 9 ++ 4 ∷ big32 i) ++ rest)
          ≡ (if ltb (length rest) 4 then err end_of_stream else err todo))
serialize_have-unread i rest = (
  serialize_have_lem i,
  elim (dec_lt (length rest) 4) [
    | yes h ↦ rw (lt→ltb (length rest) 4 h) (have-short i rest h)
    | no h ↦ rw (not_lt→ltb (length rest) 4 h) (
        subst (λ (t : List ℕ). read_any_message ((big32 9 ++ 4 ∷ big32 i) ++ t) ≡ err todo)
          (take-append-drop 4 rest)
          (have-long i (take 4 rest) (drop 4 rest) (omega (arith, length-take 4 rest))))
  ],
)

-- The Interested message that the client sends carries the length 5, which counts its own four
-- bytes: the reader takes the four bytes that follow it for a part of it, so the next message of the
-- stream is lost.
pub serialize_base-swallows :
    (next rest : List ℕ)
    → length next ≡ 4
    → (serialize_base interested ≡ some (big32 5 ++ id_byte interested ∷ []))
      × (read_any_message ((big32 5 ++ id_byte interested ∷ []) ++ (next ++ rest))
          ≡ ok (interested_message, rest))
unfolding make_message id_byte
serialize_base-swallows next rest h = (
  serialize_base_lem interested,
  rw
      (
        append_assoc (big32 5) (2 ∷ []) (next ++ rest),
        read_any_message-prefix 5 (2 ∷ (next ++ rest)) (omega arith),
        async_read-append (2 ∷ next) rest 5 (omega arith),
      )
      refl,
)
