-- ===== src/Download/Store.antt =====
-- What a received part of a piece does to its buffer.
use bittorrent_client.Base.{
  ℕ, ◌+◌, ◌≤◌, ◌<◌, ◌^◌, ◌%◌, ◌≡◌, ◌⊎◌, refl, sym, ap, ◌∙◌, true, false, List, ◌++◌, append_assoc,
  leb, le→leb, ok, err, ◌==◌, length, take, drop, arith, length-append, length-take, length-drop,
  length-replicate, take-append, drop-append,
}
use bittorrent_client.Download.Pieces.{PieceState, copied_outside, receive_part, buffer_of, copy_at}

length-copy_at :
    (begin : ℕ) (bytes old : List ℕ)
    → begin + length bytes ≤ length old
    → length (copy_at begin bytes old) ≡ length old
length-copy_at begin bytes old h = omega (
  arith,
  length-append (take begin old) (bytes ++ drop (begin + length bytes) old),
  length-append bytes (drop (begin + length bytes) old),
  length-take begin old,
  length-drop (begin + length bytes) old,
)

copy_at-read :
    (begin : ℕ) (bytes old : List ℕ)
    → begin + length bytes ≤ length old
    → take (length bytes) (drop begin (copy_at begin bytes old)) ≡ bytes
copy_at-read begin bytes old h =
    let front : length (take begin old) ≡ begin = omega (arith, length-take begin old) in
    let dropped : drop begin (copy_at begin bytes old) ≡ bytes ++ drop (begin + length bytes) old =
      ap (λ (n : ℕ). drop n (copy_at begin bytes old)) (sym front)
      ∙ drop-append (take begin old) (bytes ++ drop (begin + length bytes) old) in
    ap (take (length bytes)) dropped ∙ take-append bytes (drop (begin + length bytes) old)

length-buffer_of :
    (piece_size : ℕ) (x : PieceState)
    → (length x.data_ ≡ 0) ⊎ (length x.data_ ≡ piece_size)
    → length (buffer_of piece_size x) ≡ piece_size
length-buffer_of piece_size x sized = ground (arith, length-replicate {A = ℕ} piece_size 0)

copy_at-front :
    (begin : ℕ) (bytes old : List ℕ)
    → begin + length bytes ≤ length old
    → take begin (copy_at begin bytes old) ≡ take begin old
copy_at-front begin bytes old h =
    let front : length (take begin old) ≡ begin = omega (arith, length-take begin old) in
    ap (λ (n : ℕ). take n (copy_at begin bytes old)) (sym front)
    ∙ take-append (take begin old) (bytes ++ drop (begin + length bytes) old)

copy_at-behind :
    (begin : ℕ) (bytes old : List ℕ)
    → begin + length bytes ≤ length old
    → drop (begin + length bytes) (copy_at begin bytes old) ≡ drop (begin + length bytes) old
copy_at-behind begin bytes old h =
    let front : length (take begin old ++ bytes) ≡ begin + length bytes =
      omega (arith, length-append (take begin old) bytes, length-take begin old) in
    let behind : List ℕ = drop (begin + length bytes) old in
    ap (drop (begin + length bytes)) (sym (append_assoc (take begin old) bytes behind))
    ∙ ap (λ (n : ℕ). drop n ((take begin old ++ bytes) ++ behind)) (sym front)
    ∙ drop-append (take begin old ++ bytes) behind

-- `data_` holds the part at its offset, and elsewhere what was there.
abbrev pub Holds : ℕ → List ℕ → List ℕ → List ℕ → Type 0
Holds begin bytes old new =
    (length new ≡ length old)
    × (take begin new ≡ take begin old)
    × (take (length bytes) (drop begin new) ≡ bytes)
    × (drop (begin + length bytes) new ≡ drop (begin + length bytes) old)

receive_part-ok :
    (piece_size begin : ℕ) (bytes : List ℕ) (x : PieceState)
    → 0 < length bytes
    → piece_size < 2 ^ 32
    → (length x.data_ ≡ 0) ⊎ (length x.data_ ≡ piece_size)
    → x.downloaded + length bytes ≤ piece_size
    → begin + length bytes ≤ piece_size
    → receive_part piece_size begin bytes x
      ≡ ok (record x {
        downloaded = x.downloaded + length bytes;
        data_ = copy_at begin bytes (buffer_of piece_size x);
      })
unfolding receive_part
receive_part-ok piece_size begin bytes x some_byte fits sized room inside =
    let whole : length bytes % 2 ^ 32 ≡ length bytes = omega arith in
    let full : length (buffer_of piece_size x) ≡ piece_size = length-buffer_of piece_size x sized in
    let sum : (x.downloaded + length bytes) % 2 ^ 32 ≡ x.downloaded + length bytes = omega arith in
    let place : (begin + length bytes) % 2 ^ 32 ≡ begin + length bytes = omega arith in
    let a : (length bytes == 0) ≡ false = ground arith in
    let b : leb (x.downloaded + length bytes) piece_size ≡ true = le→leb _ _ room in
    let c : leb (begin + length bytes) piece_size ≡ true = le→leb _ _ inside in
    rw (whole, a, sum, b, place, c, full, c) refl

-- A part that is not empty and lies in its piece, whose size is below 2^32 and whose buffer is empty or of that
-- size, with no more bytes than are missing, is accepted: the buffer has the piece's size, holds the part at its offset and elsewhere
-- what was there, and the size of the part is added to what is downloaded.
pub receive_part-stores :
    (piece_size begin : ℕ) (bytes : List ℕ) (x : PieceState)
    → 0 < length bytes
    → piece_size < 2 ^ 32
    → (length x.data_ ≡ 0) ⊎ (length x.data_ ≡ piece_size)
    → x.downloaded + length bytes ≤ piece_size
    → begin + length bytes ≤ piece_size
    → (x' : PieceState) × (receive_part piece_size begin bytes x ≡ ok x')
      × (length x'.data_ ≡ piece_size)
      × Holds begin bytes (buffer_of piece_size x) x'.data_
      × (x'.downloaded ≡ x.downloaded + length bytes)
receive_part-stores piece_size begin bytes x some_byte fits sized room inside =
    let old : List ℕ = buffer_of piece_size x in
    let full : length old ≡ piece_size = length-buffer_of piece_size x sized in
    let fit : begin + length bytes ≤ length old = omega (arith, full, inside) in
    let size : length (copy_at begin bytes old) ≡ length old = length-copy_at begin bytes old fit in
    (
      record x { downloaded = x.downloaded + length bytes; data_ = copy_at begin bytes old },
      receive_part-ok piece_size begin bytes x some_byte fits sized room inside,
      size ∙ full,
      (
        size,
        copy_at-front begin bytes old fit,
        copy_at-read begin bytes old fit,
        copy_at-behind begin bytes old fit,
      ),
      refl,
    )

-- The assertions do not keep a part in its buffer: for a piece whose size is below 2^32 and whose buffer is empty or
-- of that size, a part that is not empty, with no more bytes than are missing, whose offset is below 2^32 and so
-- large that the sum of offset and size is not, passes all of them and is copied to outside of `data_`.
pub receive_part-outside :
    (piece_size begin : ℕ) (bytes : List ℕ) (x : PieceState)
    → 0 < length bytes
    → piece_size < 2 ^ 32
    → (length x.data_ ≡ 0) ⊎ (length x.data_ ≡ piece_size)
    → x.downloaded + length bytes ≤ piece_size
    → begin < 2 ^ 32
    → 2 ^ 32 ≤ begin + length bytes
    → receive_part piece_size begin bytes x ≡ err copied_outside
unfolding receive_part
receive_part-outside piece_size begin bytes x some_byte fits sized room word wraps =
    let whole : length bytes % 2 ^ 32 ≡ length bytes = omega arith in
    let full : length (buffer_of piece_size x) ≡ piece_size = length-buffer_of piece_size x sized in
    let sum : (x.downloaded + length bytes) % 2 ^ 32 ≡ x.downloaded + length bytes = omega arith in
    let a : (length bytes == 0) ≡ false = ground arith in
    let b : leb (x.downloaded + length bytes) piece_size ≡ true = le→leb _ _ room in
    let c : leb ((begin + length bytes) % 2 ^ 32) piece_size ≡ true = le→leb _ _ (omega arith) in
    let d : leb (begin + length bytes) piece_size ≡ false = ground arith in
    rw (whole, a, sum, b, c, full, d) refl
