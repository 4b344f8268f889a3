-- ===== src/Download/Pieces.antt =====
-- PieceState and PiecesToDownload. A `Handle`, an iterator into `pieces_`, is the index of its piece:
-- an index is put into `pieces_` at most once. `none` stands for `pieces_.end()`.
use bittorrent_client.Base.{
  ℕ, suc, ◌+◌, ◌-◌, ◌*◌, ◌/◌, ◌%◌, ◌^◌, Bool, false, Option, none, some, List, [], ◌∷◌, ◌++◌,
  Result, ok, err, ltb, leb, ◌==◌, if◌then◌else◌, length, take, drop, replicate, get_or,
}

-- Message_Bitfield::has_piece on `data_`, which begins with the id of the message.
unfoldable pub has_piece : List ℕ → ℕ → Bool
has_piece [] index = false
has_piece (id ∷ masks) index =
    if leb (length masks) (index / 8)
    then false
    else (get_or masks (index / 8) 0 / 2 ^ (7 - index % 8) % 2 == 1)

pub record PieceState : Type 0 where
  pub piece_index : ℕ
  pub downloaded : ℕ
  pub requested : ℕ
  pub data_ : List ℕ

pub record PiecesToDownload : Type 0 where
  pub pieces : List PieceState
  pub to_retry : List ℕ
  pub pieces_count : ℕ
  pub piece_size : ℕ
  pub total_size : ℕ
  pub next_piece_index : ℕ
  pub downloaded_pieces_count : ℕ

-- `none` where the assertion fails. The product is of two 32-bit words.
unfoldable pub get_piece_size : PiecesToDownload → ℕ → Option ℕ
get_piece_size p piece_index =
    let last : ℕ = (p.pieces_count + (2 ^ 32 - 1)) % 2 ^ 32 in
    let size : ℕ = p.piece_size * last % 2 ^ 32 in
    if ltb piece_index last
    then some p.piece_size
    else (if ltb size p.total_size then some ((p.total_size - size) % 2 ^ 32) else none)

-- The loop over `to_retry_`: the first handle whose piece the peer has, and the others.
unfoldable pub take_retry : List ℕ → List ℕ → Option (ℕ × List ℕ)
unfolding has_piece
take_retry have_pieces [] = none
take_retry have_pieces (h ∷ hs) =
    let rest = take_retry have_pieces hs in
    if has_piece have_pieces h
    then some (h, hs)
    else elim rest [ some found ↦ some (found.0, h ∷ found.1) | none ↦ none ]

abbrev pub new_piece : ℕ → PieceState
new_piece index = record { piece_index = index; downloaded = 0; requested = 0; data_ = [] }

unfoldable pub pop_piece_to_download : PiecesToDownload → List ℕ → Option ℕ × PiecesToDownload
unfolding take_retry
pop_piece_to_download p have_pieces =
    if ltb p.next_piece_index p.pieces_count
    then (
      some p.next_piece_index,
      record p {
        pieces = p.pieces ++ new_piece p.next_piece_index ∷ [];
        next_piece_index = suc p.next_piece_index;
      },
    )
    else elim (take_retry have_pieces p.to_retry) [
      | some found ↦ (some found.0, record p { to_retry = found.1 })
      | none ↦ (none, p)
    ]

-- The piece of a handle, changed.
unfoldable pub update_piece : ℕ → (PieceState → PieceState) → List PieceState → List PieceState
update_piece h f [] = []
update_piece h f (x ∷ xs) =
    let rest = update_piece h f xs in if x.piece_index == h then f x ∷ xs else x ∷ rest

unfoldable pub push_piece_to_retry : PiecesToDownload → ℕ → PiecesToDownload
unfolding update_piece
push_piece_to_retry p h = record p {
  pieces = update_piece h (λ x. record x { downloaded = 0; requested = 0; data_ = [] }) p.pieces;
  to_retry = p.to_retry ++ h ∷ [];
}

-- std::memcpy to the offset `begin` of `old`.
abbrev pub copy_at : ℕ → List ℕ → List ℕ → List ℕ
copy_at begin bytes old = take begin old ++ (bytes ++ drop (begin + length bytes) old)

-- `data_`, of the piece's size before the first copy.
abbrev pub buffer_of : ℕ → PieceState → List ℕ
buffer_of piece_size x = if length x.data_ == 0 then replicate piece_size 0 else x.data_

-- Why there is no next state: an assertion that does not hold, or a std::memcpy that writes outside
-- `data_`, which no assertion excludes and after which nothing is said of the memory.
pub data PartFailure : Type 0 where
  failed_assertion copied_outside : PartFailure

-- on_piece_part_receive on its piece. Sums in the assertions are of 32-bit words and may wrap around; the
-- copy goes to the offset `begin` itself.
unfoldable pub receive_part : ℕ → ℕ → List ℕ → PieceState → Result PartFailure PieceState
receive_part piece_size begin bytes x =
    let size : ℕ = length bytes % 2 ^ 32 in
    let buffer : List ℕ = buffer_of piece_size x in
    if size == 0
    then err failed_assertion
    else (if leb ((x.downloaded + size) % 2 ^ 32) piece_size
        then (if leb ((begin + size) % 2 ^ 32) piece_size
            then (if leb (begin + size) (length buffer)
                then ok (record x {
                  downloaded = (x.downloaded + size) % 2 ^ 32;
                  data_ = copy_at begin bytes buffer;
                })
                else err copied_outside)
            else err failed_assertion)
        else err failed_assertion)

-- The piece of a handle.
unfoldable pub find_piece : ℕ → List PieceState → Option PieceState
find_piece h [] = none
find_piece h (x ∷ xs) = let rest = find_piece h xs in if x.piece_index == h then some x else rest

abbrev pub store_part :
    PiecesToDownload → ℕ → Result PartFailure PieceState → Option PiecesToDownload
store_part p h (ok x') = some (record p { pieces = update_piece h (λ _. x') p.pieces })
store_part p h (err e) = none

abbrev pub part_received :
    PiecesToDownload → ℕ → ℕ → List ℕ → Option ℕ → Option PieceState → Option PiecesToDownload
part_received p h begin bytes (some piece_size) (some x) =
    store_part p h (receive_part piece_size begin bytes x)
part_received p h begin bytes _ _ = none

-- on_piece_part_receive: `none` where the run ends at an assertion or at a copy outside the buffer.
unfoldable pub on_piece_part_receive : PiecesToDownload → ℕ → ℕ → List ℕ → Option PiecesToDownload
unfolding get_piece_size find_piece receive_part update_piece
on_piece_part_receive p h begin bytes =
    part_received p h begin bytes (get_piece_size p h) (find_piece h p.pieces)

-- `pieces_.erase(piece)`.
unfoldable pub erase_piece : ℕ → List PieceState → List PieceState
erase_piece h [] = []
erase_piece h (x ∷ xs) = let rest = erase_piece h xs in if x.piece_index == h then xs else x ∷ rest

-- on_piece_downloaded, but for the call of `on_new_piece`.
unfoldable pub on_piece_downloaded : PiecesToDownload → ℕ → PiecesToDownload
unfolding erase_piece
on_piece_downloaded p h = record p {
  pieces = erase_piece h p.pieces;
  downloaded_pieces_count = suc p.downloaded_pieces_count;
}
