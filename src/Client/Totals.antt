-- ===== src/Client/Totals.antt =====
-- The counts and sizes of TorrentClient in src/bittorrent_client/torrent_client.cpp.
use bittorrent_client.Base.{ℕ, ◌+◌, ◌/◌, ◌%◌, ◌^◌, Option, none, some, List, [], ◌∷◌, length}
use bittorrent_client.Torrent.Metainfo.{
  File, LengthOrFiles, neither, single_length, several_files, TorrentMetainfo,
}

unfoldable pub get_pieces_count : TorrentMetainfo → ℕ
get_pieces_count m = length m.pieces_sha1 / 20 % 2 ^ 32

-- The loop over the files, from `total`. The sum is a 64-bit word.
unfoldable pub add_lengths : ℕ → List File → ℕ
add_lengths total [] = total
add_lengths total (f ∷ files) = add_lengths ((total + f.length_bytes) % 2 ^ 64) files

-- `none` where the assertion fails.
unfoldable pub get_total_size_bytes : LengthOrFiles → Option ℕ
unfolding add_lengths
get_total_size_bytes neither = none
get_total_size_bytes (single_length n) = some n
get_total_size_bytes (several_files files) = some (add_lengths 0 files)

unfoldable pub get_piece_size_bytes : TorrentMetainfo → ℕ
get_piece_size_bytes m = m.piece_length_bytes % 2 ^ 32
