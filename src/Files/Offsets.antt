-- ===== src/Files/Offsets.antt =====
-- FileOffset, FilePiece and FilesList of src/bittorrent_client/main.cpp.
use bittorrent_client.Base.{
  ℕ, suc, ◌+◌, ◌%◌, ◌^◌, Option, none, some, List, [], ◌∷◌, ◌==◌, if◌then◌else◌,
}
use bittorrent_client.Torrent.Metainfo.{
  File, neither, single_length, several_files, TorrentMetainfo,
}
use bittorrent_client.Client.Totals.{get_total_size_bytes}

pub record FileOffset : Type 0 where
  pub start : ℕ
  pub end : ℕ
  pub file_index : ℕ

pub record FilePiece : Type 0 where
  pub file_index : ℕ
  pub file_name : List ℕ
  pub file_offset : ℕ
  pub bytes_count : ℕ
  pub piece_offset : ℕ
  pub file_size : ℕ

pub record FilesList : Type 0 where
  pub torrent : TorrentMetainfo
  pub files_offset : List FileOffset

-- The loop over the files, from the offset `start` and the index `index`.
unfoldable pub file_offsets : ℕ → ℕ → List File → List FileOffset
file_offsets start index [] = []
file_offsets start index (file ∷ files) =
    record { start = start; end = (start + file.length_bytes) % 2 ^ 64; file_index = index }
    ∷ file_offsets ((start + file.length_bytes) % 2 ^ 64) (suc index) files

-- `back().end`.
unfoldable pub back_end : List FileOffset → Option ℕ
back_end [] = none
back_end (fo ∷ []) = some fo.end
back_end (fo ∷ fo' ∷ fos) = back_end (fo' ∷ fos)

-- The assertions at the end of `make`.
abbrev pub make_checked : TorrentMetainfo → List FileOffset → Option ℕ → Option ℕ → Option FilesList
make_checked torrent fos (some end) (some total) =
    if end == total then some (record { torrent = torrent; files_offset = fos }) else none
make_checked torrent fos _ _ = none

unfoldable pub make_files_list : TorrentMetainfo → Option FilesList
unfolding file_offsets back_end get_total_size_bytes
make_files_list torrent = elim (torrent.length_or_files) [
  | neither ↦ none
  | single_length n ↦
      make_checked torrent (record { start = 0; end = n; file_index = 0 } ∷ []) (some n) (some n)
  | several_files files ↦
      let fos : List FileOffset = file_offsets 0 0 files in
      make_checked torrent fos (back_end fos) (get_total_size_bytes torrent.length_or_files)
]
