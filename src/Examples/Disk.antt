-- ===== src/Examples/Disk.antt =====
-- A torrent of two files, and its first piece, which meets both.
use bittorrent_client.Base.{
  ℕ, ◌+◌, ◌*◌, ◌≡◌, refl, Option, none, some, List, [], ◌∷◌, arith, min, length, take, get_elem?,
  replicate, leb, le→leb, if◌then◌else◌, length-replicate,
}
use bittorrent_client.Torrent.Metainfo.{File, several_files, TorrentMetainfo}
use bittorrent_client.Download.Pieces.{PieceState, copy_at}
use bittorrent_client.Client.Totals.{get_piece_size_bytes}
use bittorrent_client.Files.Offsets.{FilesList, make_files_list}
use bittorrent_client.Files.Disk.{PhysicalFile, invalid_handle_value, write_piece, total_written}
use bittorrent_client.Files.Layout.{total_length, offset_of, AllNonempty}
use bittorrent_client.Files.Overwrite.{overwrite}
use bittorrent_client.Files.Contents.{
  IsFileSystem, AreReady, none_left, ready, bytes_on_disk, is_not_closed, contents_of,
}
use bittorrent_client.Files.Made.{files_of, list_of, make_files_list_lem}
use bittorrent_client.Files.Promise.{write_piece-overwrite}

abbrev two_files : TorrentMetainfo
two_files = record {
  suggested_name_utf8 = 100 ∷ [];
  piece_length_bytes = 5;
  pieces_sha1 = replicate 40 7;
  length_or_files = several_files (
      record { length_bytes = 3; path_utf8 = 97 ∷ [] }
      ∷ record { length_bytes = 4; path_utf8 = 98 ∷ [] }
      ∷ []);
  tracker_url_utf8 = [];
  multi_trackers = [];
}

abbrev first_piece : PieceState
first_piece = record {
  piece_index = 0;
  downloaded = 5;
  requested = 5;
  data_ = 1 ∷ 2 ∷ 3 ∷ 4 ∷ 5 ∷ [];
}

abbrev new_disk : List PhysicalFile
new_disk = replicate 2 (record { file = invalid_handle_value; written = 0 })

abbrev create_zeros : List ℕ → ℕ → Option (List ℕ)
create_zeros name size = some (replicate size 0)

abbrev write_inside : ℕ → List ℕ → List ℕ → Option (List ℕ)
write_inside offset data_ old =
    if leb (offset + length data_) (length old) then some (copy_at offset data_ old) else none

abbrev zeros_disk : IsFileSystem create_zeros write_inside
zeros_disk = record {
  new_contents = λ name size. replicate size 0;
  creates = λ name size. refl;
  length-new = λ name size. length-replicate size 0;
  writes = λ offset data_ old h. rw (le→leb (offset + length data_) (length old) h) refl;
}

make_files_list_lem_example :
    (l : FilesList) × (make_files_list two_files ≡ some l)
    × (l.torrent ≡ two_files)
    × (length l.files_offset ≡ length (files_of two_files))
    × ((j : ℕ) (f : File)
        → get_elem? (files_of two_files) j ≡ some f
        → get_elem? l.files_offset j
          ≡ some (offset_of (total_length (take j (files_of two_files))) j f))
unfolding files_of total_length
make_files_list_lem_example = make_files_list_lem two_files (omega arith) (omega arith)

first_ready :
    AreReady zeros_disk.new_contents 0
      (min ((0 + 1) * get_piece_size_bytes two_files) 7)
      0
      (files_of two_files)
      new_disk
unfolding files_of is_not_closed contents_of get_piece_size_bytes
first_ready =
    ready (record { size = refl; not_closed = λ h. refl; room = λ h. omega arith })
      (ready (record { size = refl; not_closed = λ h. refl; room = λ h. omega arith }) none_left)

write_piece-overwrite_example :
    (disk' : List PhysicalFile) × (write_piece create_zeros write_inside
        (list_of two_files)
        first_piece
        new_disk
      ≡ some (record first_piece { data_ = [] }, disk'))
    × (bytes_on_disk zeros_disk.new_contents (files_of two_files) disk'
        ≡ 1 ∷ 2 ∷ 3 ∷ 4 ∷ 5 ∷ 0 ∷ 0 ∷ [])
    × (total_written disk' ≡ 5)
unfolding files_of total_length AllNonempty get_piece_size_bytes overwrite bytes_on_disk contents_of
    total_written
write_piece-overwrite_example =
    write_piece-overwrite create_zeros write_inside zeros_disk two_files first_piece new_disk
      (omega arith, (omega arith, tt)) (omega arith) (omega arith) (omega arith) (omega arith) refl
      first_ready
