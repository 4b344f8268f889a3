-- ===== src/Examples/Pieces.antt =====
-- The theorems on the pieces to download, at small ones.
use bittorrent_client.Base.{
  ℕ, ok, err, ◌≡◌, ◌+◌, ◌-◌, ◌*◌, ◌==◌, refl, [], ◌∷◌, some, length, arith, inl, if◌then◌else◌,
}
use bittorrent_client.Download.Pieces.{
  PieceState, PiecesToDownload, new_piece, pop_piece_to_download, on_piece_downloaded, receive_part,
  copied_outside, buffer_of, get_piece_size,
}
use bittorrent_client.Download.Account.{
  Steps, pop, downloaded_, finish, next, IsAccounted, once_below, Steps-IsAccounted,
}
use bittorrent_client.Download.Store.{Holds, receive_part-stores, receive_part-outside}
use bittorrent_client.Download.Owned.{count, count_pieces}
use bittorrent_client.Download.Sizes.{get_piece_size_lem}

-- A torrent of one piece, of which nothing is done.
abbrev fresh : PiecesToDownload
fresh = record {
  pieces = [];
  to_retry = [];
  pieces_count = 1;
  piece_size = 4;
  total_size = 3;
  next_piece_index = 0;
  downloaded_pieces_count = 0;
}

abbrev popped : PiecesToDownload
popped = record fresh { pieces = new_piece 0 ∷ []; next_piece_index = 1 }

abbrev finished : PiecesToDownload
finished = record popped { pieces = []; downloaded_pieces_count = 1 }

one_download : Steps fresh [] finished (0 ∷ [])
unfolding pop_piece_to_download on_piece_downloaded count_pieces
one_download =
    next (pop fresh [] []) (next (downloaded_ popped [] 0 (omega arith)) (finish finished (0 ∷ [])))

fresh-IsAccounted : IsAccounted fresh []
unfolding count_pieces count
fresh-IsAccounted = record { each = λ k. ground arith; number = refl; bound = omega arith }

Steps-IsAccounted_example :
    IsAccounted finished (0 ∷ [])
    × (finished.pieces_count ≡ fresh.pieces_count)
    × (finished.pieces ≡ []
        → finished.next_piece_index ≡ fresh.pieces_count
        → (k : ℕ) → count k (0 ∷ []) ≡ once_below fresh.pieces_count k)
Steps-IsAccounted_example = Steps-IsAccounted one_download fresh-IsAccounted

receive_part-stores_example :
    (x' : PieceState) × (receive_part 3 1 (8 ∷ 9 ∷ []) (new_piece 0) ≡ ok x')
    × (length x'.data_ ≡ 3)
    × Holds 1 (8 ∷ 9 ∷ []) (buffer_of 3 (new_piece 0)) x'.data_
    × (x'.downloaded ≡ 0 + 2)
receive_part-stores_example =
    receive_part-stores 3 1 (8 ∷ 9 ∷ []) (new_piece 0) (omega arith) (omega arith) (inl refl)
      (omega arith) (omega arith)

receive_part-outside_example :
    receive_part 3 4294967295 (8 ∷ 9 ∷ []) (new_piece 0) ≡ err copied_outside
receive_part-outside_example =
    receive_part-outside 3 4294967295 (8 ∷ 9 ∷ []) (new_piece 0) (omega arith) (omega arith)
      (inl refl) (omega arith) (omega arith) (omega arith)

get_piece_size_lem_example :
    get_piece_size fresh 0
    ≡ some (
        if 0 + 1 == fresh.pieces_count
        then fresh.total_size - fresh.piece_size * (fresh.pieces_count - 1)
        else fresh.piece_size)
get_piece_size_lem_example =
    get_piece_size_lem fresh 0 (omega arith) (omega arith) (omega arith) (omega arith) (omega arith)
