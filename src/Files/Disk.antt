-- ===== src/Files/Disk.antt =====
-- PhysicalFile and FilesOnDisk of src/bittorrent_client/main.cpp. The operating system's files are a
-- parameter: `create_new` is CreateFileA for a name that no file has, followed by SetEndOfFile at the final
-- size, and `write_at` is SetFilePointerEx and WriteFile. Both give the contents of the file, and `none`
-- where a call fails, which an assertion catches.
use bittorrent_client.Base.{
  ℕ, ◌+◌, ◌%◌, ◌^◌, Option, none, some, List, [], ◌∷◌, ltb, leb, ◌==◌, if◌then◌else◌, length, take,
  drop, replicate, get_elem?, set,
}
use bittorrent_client.Wire.Bytes.{◌>>=◌}
use bittorrent_client.Files.Offsets.{FilePiece, FilesList}
use bittorrent_client.Files.Iterate.{assert, iterate_piece}
use bittorrent_client.Download.Pieces.{PieceState}

-- `file_`: not created yet, open, or closed by try_finalize. A closed file keeps its contents.
pub data FileHandle : Type 0 where
  invalid_handle_value : FileHandle
  opened : List ℕ → FileHandle
  closed : List ℕ → FileHandle

pub record PhysicalFile : Type 0 where
  pub file : FileHandle
  pub written : ℕ

module _ (create_new : List ℕ → ℕ → Option (List ℕ))
    (write_at : ℕ → List ℕ → List ℕ → Option (List ℕ)) where
  -- CREATE_NEW fails if the file exists, as it does once it is closed.
  unfoldable pub try_create : List ℕ → ℕ → PhysicalFile → Option PhysicalFile
  try_create name final_size f = elim (f.file) [
    | opened bytes ↦ some f
    | invalid_handle_value ↦
        create_new name final_size >>= λ bytes. some (record f { file = opened bytes })
    | closed bytes ↦ none
  ]

  -- `size` is the size of `data`.
  unfoldable pub write : List ℕ → ℕ → PhysicalFile → Option PhysicalFile
  write data_ offset f = elim (f.file) [
    | opened bytes ↦ write_at offset data_ bytes >>= λ bytes'.
        some (record { file = opened bytes'; written = (f.written + length data_) % 2 ^ 64 })
    | _ ↦ none
  ]

  abbrev close : FileHandle → FileHandle
  close (opened bytes) = closed bytes
  close h = h

  unfoldable pub try_finalize : ℕ → PhysicalFile → Option PhysicalFile
  try_finalize final_size f = assert (leb f.written final_size) >>= λ _.
      some (if f.written == final_size then record f { file = close f.file } else f)

  -- on_write_file_piece, on `files_`.
  unfoldable pub on_write_file_piece :
      List ℕ → FilePiece → List PhysicalFile → Option (List PhysicalFile)
  unfolding try_create write try_finalize
  on_write_file_piece all_data piece files = get_elem? files piece.file_index >>= λ f.
      assert (ltb piece.piece_offset (length all_data)) >>= λ _.
      assert (ltb 0 piece.bytes_count) >>= λ _.
      try_create piece.file_name piece.file_size f >>= λ f1.
      write (take (piece.bytes_count % 2 ^ 32) (drop piece.piece_offset all_data)) piece.file_offset
        f1
      >>= λ f2. try_finalize piece.file_size f2 >>= λ f3. some (set files piece.file_index f3)

  -- write_piece: `data_` is emptied.
  unfoldable pub write_piece :
      FilesList → PieceState → List PhysicalFile → Option (PieceState × List PhysicalFile)
  unfolding iterate_piece on_write_file_piece
  write_piece list piece files = assert (ltb 0 (length piece.data_)) >>= λ _.
      iterate_piece (on_write_file_piece piece.data_) list piece.piece_index files >>= λ files'.
      some (record piece { data_ = [] }, files')

-- The constructor of FilesOnDisk.
unfoldable pub make_files : FilesList → List PhysicalFile
make_files list =
    replicate (length list.files_offset) (record { file = invalid_handle_value; written = 0 })

-- The loop over the files, from `total`.
unfoldable pub sum_written : ℕ → List PhysicalFile → ℕ
sum_written total [] = total
sum_written total (f ∷ files) = sum_written ((total + f.written) % 2 ^ 64) files

unfoldable pub total_written : List PhysicalFile → ℕ
unfolding sum_written
total_written files = sum_written 0 files
