-- ===== src/Files/Promise.antt =====
-- What FilesList and FilesOnDisk of src/bittorrent_client/main.cpp promise.
use bittorrent_client.Base.{
  ℕ, ◌+◌, ◌*◌, ◌^◌, ◌%◌, ◌<◌, ◌≡◌, refl, ap, sym, ◌∙◌, Option, some, List, [], arith, min, length,
  lt→ltb, subst,
}
use bittorrent_client.Torrent.Metainfo.{TorrentMetainfo}
use bittorrent_client.Client.Totals.{get_piece_size_bytes}
use bittorrent_client.Download.Pieces.{PieceState}
use bittorrent_client.Files.Iterate.{iterate_files, iterate_piece}
use bittorrent_client.Files.Disk.{PhysicalFile, on_write_file_piece, write_piece, total_written}
use bittorrent_client.Files.Layout.{total_length, AllNonempty}
use bittorrent_client.Files.Overwrite.{overwrite}
use bittorrent_client.Files.Contents.{IsFileSystem, AreReady, bytes_on_disk, total_written_lem}
use bittorrent_client.Files.Made.{files_of, list_of, file_of-list_of, back_end-file_offsets_zero}
use bittorrent_client.Files.Written.{RangeWritten, write_range}

module _ (create_new : List ℕ → ℕ → Option (List ℕ))
    (write_at : ℕ → List ℕ → List ℕ → Option (List ℕ)) (fs : IsFileSystem create_new write_at)
    (t : TorrentMetainfo) (piece : PieceState) (disk : List PhysicalFile) where
  abbrev begin : ℕ
  begin = piece.piece_index * get_piece_size_bytes t

  abbrev end : ℕ
  end = min ((piece.piece_index + 1) * get_piece_size_bytes t) (total_length (files_of t))

  -- write_piece on a downloaded piece of a torrent without empty files whose lengths add up to less than 2^64,
  -- with the size of the piece of its index and (index + 1) * (piece size) below 2^32: if the contents of every
  -- file have its length, and every file that the piece meets is not closed and has room for its part, then no assertion fails, the bytes of all the files one after another are the old ones
  -- with those of the piece at index * (piece size), total_written grows by the size of the piece, and the
  -- piece is left without its data. The operating system's calls succeed, as `fs` says.
  pub write_piece-overwrite :
      AllNonempty (files_of t)
      → total_length (files_of t) < 2 ^ 64
      → (piece.piece_index + 1) * get_piece_size_bytes t < 2 ^ 32
      → piece.piece_index + 1 < 2 ^ 32
      → 0 < length piece.data_
      → begin + length piece.data_ ≡ end
      → AreReady fs.new_contents begin end 0 (files_of t) disk
      → (disk' : List PhysicalFile) × (write_piece create_new write_at (list_of t) piece disk
          ≡ some (record piece { data_ = [] }, disk'))
        × (bytes_on_disk fs.new_contents (files_of t) disk'
            ≡ overwrite begin piece.data_ 0 (bytes_on_disk fs.new_contents (files_of t) disk))
        × (total_written disk' ≡ (total_written disk + length piece.data_) % 2 ^ 64)
  unfolding write_piece iterate_piece list_of
  write_piece-overwrite ne w m k h e r =
      let small : length piece.data_ < 2 ^ 32 = omega arith in
      let done : RangeWritten create_new write_at fs (list_of t) piece.data_ begin h small
          (files_of t) disk =
        write_range create_new write_at fs (list_of t) piece.data_ begin h small (files_of t) refl
          (file_of-list_of t w) ne w (omega arith) disk
          (subst (λ n. AreReady fs.new_contents begin n 0 (files_of t) disk) (sym e) r) in
      let e1 : begin % 2 ^ 32 ≡ begin = omega arith in
      let e2 : (piece.piece_index + 1) % 2 ^ 32 ≡ piece.piece_index + 1 = omega arith in
      let e3 : (piece.piece_index + 1) * get_piece_size_bytes t % 2 ^ 32
          ≡ (piece.piece_index + 1) * get_piece_size_bytes t =
        omega arith in
      let run : iterate_files (on_write_file_piece create_new write_at piece.data_) (list_of t)
            begin end disk
          ≡ some done.result =
        ap
          (λ n.
            iterate_files (on_write_file_piece create_new write_at piece.data_) (list_of t) begin n
              disk)
          (sym e)
        ∙ done.run in
      (
        done.result,
        rw
            (
              lt→ltb 0 (length piece.data_) h,
              back_end-file_offsets_zero (files_of t) (omega arith) w,
              e1,
              e2,
              e3,
              run,
            )
            refl,
        done.bytes,
        omega (arith, total_written_lem done.result, total_written_lem disk, done.counted),
      )
