-- ===== src/Files/Written.antt =====
-- iterate_files and write_piece with on_write_file_piece.
use bittorrent_client.Base.{
  ℕ, ◌+◌, ◌-◌, ◌^◌, ◌≤◌, ◌<◌, ◌≡◌, refl, ap, ap₂, sym, ◌∙◌, true, Option, some, List, ◌++◌, arith,
  length, get_elem?, subst, lt→ltb, ◌==◌,
}
use bittorrent_client.Torrent.Metainfo.{File}
use bittorrent_client.Files.Offsets.{FilesList, file_offsets}
use bittorrent_client.Files.Iterate.{file_of, iterate_loop, iterate_files}
use bittorrent_client.Files.Disk.{PhysicalFile, on_write_file_piece}
use bittorrent_client.Files.Layout.{total_length, total_length-append, offset_of, AllNonempty}
use bittorrent_client.Files.Search.{AllNonempty-left, AllNonempty-right}
use bittorrent_client.Files.Overwrite.{
  overwrite, overwrite-append, overwrite_before, overwrite_after,
}
use bittorrent_client.Files.Contents.{
  IsFileSystem, AreReady, AreReady-split, AreReady-length, AreReady-bytes, bytes_on_disk,
  bytes_on_disk-append, plain_written, plain_written-append,
}
use bittorrent_client.Files.Loop.{consumed, LoopDone, iterate_loop_lem}
use bittorrent_client.Files.Parts.{Parts, parts}

module _ (create_new : List ℕ → ℕ → Option (List ℕ))
    (write_at : ℕ → List ℕ → List ℕ → Option (List ℕ)) (fs : IsFileSystem create_new write_at)
    (list : FilesList) (data_ : List ℕ) (start_bytes : ℕ) (some_data : 0 < length data_)
    (small : length data_ < 2 ^ 32) where
  abbrev end_bytes : ℕ
  end_bytes = start_bytes + length data_

  -- `disk` with the bytes of the range overwritten.
  pub record RangeWritten (files : List File) (disk : List PhysicalFile) : Type 0 where
    pub result : List PhysicalFile
    pub run :
        iterate_files
          (on_write_file_piece create_new write_at data_)
          list
          start_bytes
          end_bytes
          disk
        ≡ some result
    pub bytes :
        bytes_on_disk fs.new_contents files result
        ≡ overwrite start_bytes data_ 0 (bytes_on_disk fs.new_contents files disk)
    pub counted : plain_written result ≡ plain_written disk + length data_

  module _ (before inside after : List File) (p q r : List PhysicalFile)
      (hp : AreReady fs.new_contents start_bytes end_bytes 0 before p)
      (hq : AreReady fs.new_contents start_bytes end_bytes (total_length before) inside q)
      (hr : AreReady fs.new_contents start_bytes end_bytes
        (total_length before + total_length inside)
        after
        r)
      (from : total_length before ≤ start_bytes)
      (to : end_bytes ≤ total_length before + total_length inside) where
    bytes_of_three :
        (q' : List PhysicalFile)
        → length q' ≡ length q
        → bytes_on_disk fs.new_contents (before ++ (inside ++ after)) (p ++ (q' ++ r))
          ≡ bytes_on_disk fs.new_contents before p
            ++ (bytes_on_disk fs.new_contents inside q' ++ bytes_on_disk fs.new_contents after r)
    bytes_of_three q' e =
        bytes_on_disk-append fs.new_contents before (inside ++ after) p (q' ++ r)
          (AreReady-length fs.new_contents hp)
        ∙ ap (◌++◌ (bytes_on_disk fs.new_contents before p)) (
            bytes_on_disk-append fs.new_contents inside after q' r
              (AreReady-length fs.new_contents hq ∙ sym e))

    bytes_of_parts :
        (q' : List PhysicalFile)
        → length q' ≡ length q
        → bytes_on_disk fs.new_contents inside q'
          ≡ overwrite start_bytes data_
              (total_length before)
              (bytes_on_disk fs.new_contents inside q)
        → bytes_on_disk fs.new_contents (before ++ (inside ++ after)) (p ++ (q' ++ r))
          ≡ overwrite start_bytes data_ 0
              (bytes_on_disk fs.new_contents (before ++ (inside ++ after)) (p ++ (q ++ r)))
    bytes_of_parts q' e h =
        let nb : length (bytes_on_disk fs.new_contents before p) ≡ total_length before =
          AreReady-bytes fs.new_contents hp in
        let ni : length (bytes_on_disk fs.new_contents inside q) ≡ total_length inside =
          AreReady-bytes fs.new_contents hq in
        let x : List ℕ = bytes_on_disk fs.new_contents before p in
        let y : List ℕ = bytes_on_disk fs.new_contents inside q in
        let z : List ℕ = bytes_on_disk fs.new_contents after r in
        let base : 0 + length x ≡ total_length before = omega arith in
        bytes_of_three q' e
        ∙ ap (λ m. x ++ (m ++ z)) h
        ∙ sym (
            ap (overwrite start_bytes data_ 0) (bytes_of_three q refl)
            ∙ overwrite-append start_bytes data_ 0 x (y ++ z)
            ∙ ap₂ ◌++◌ (overwrite_before start_bytes data_ 0 x (omega arith)) (
                overwrite-append start_bytes data_ (0 + length x) y z
                ∙ ap₂ ◌++◌ (ap (λ b. overwrite start_bytes data_ b y) base)
                    (overwrite_after start_bytes data_ (0 + length x + length y) z (omega arith))))

  module _ (files : List File) (layout : list.files_offset ≡ file_offsets 0 0 files)
      (names : (base i : ℕ) (f : File)
        → get_elem? files i ≡ some f
        → file_of list (offset_of base i f) ≡ some f)
      (ne : AllNonempty files) (w : total_length files < 2 ^ 64)
      (inside : end_bytes ≤ total_length files) where
    -- The disk in three parts, as the files are.
    write_parts :
        (c : Parts start_bytes end_bytes list files) (p q r : List PhysicalFile)
        → AreReady fs.new_contents start_bytes end_bytes 0 c.before p
        → AreReady fs.new_contents start_bytes end_bytes (total_length c.before) c.inside q
        → AreReady fs.new_contents start_bytes end_bytes
            (total_length c.before + total_length c.inside)
            c.after
            r
        → RangeWritten files (p ++ (q ++ r))
    unfolding iterate_files
    write_parts c p q r hp hq hr =
        let t : total_length (c.before ++ (c.inside ++ c.after))
            ≡ total_length c.before + total_length (c.inside ++ c.after) =
          total_length-append c.before (c.inside ++ c.after) in
        let t' : total_length files ≡ total_length (c.before ++ (c.inside ++ c.after)) =
          ap total_length c.split in
        let done : LoopDone create_new write_at fs list data_ start_bytes some_data small
            (total_length c.before) (length c.before) c.inside p q r =
          iterate_loop_lem create_new write_at fs list data_ start_bytes some_data small
            (total_length c.before) (length c.before) c.before c.inside c.after p q r
            (λ b j f e. names b j f (ap (λ xs. get_elem? xs j) c.split ∙ e)) refl
            (AreReady-length fs.new_contents hp)
            (AllNonempty-left c.inside c.after
              (AllNonempty-right c.before (c.inside ++ c.after) (subst AllNonempty c.split ne)))
            (omega (arith, total_length-append c.inside c.after)) c.meet hq in
        let zero_consumed : consumed start_bytes end_bytes (total_length c.before) ≡ 0 =
          omega (arith, c.from) in
        let all_consumed : consumed start_bytes end_bytes
              (total_length c.before + total_length c.inside)
            ≡ length data_ =
          omega (arith, c.to) in
        let run0 : iterate_loop (on_write_file_piece create_new write_at data_) list start_bytes
              end_bytes (file_offsets (total_length c.before) (length c.before) c.inside) 0
              (p ++ (q ++ r))
            ≡ some (p ++ (done.result ++ r), length data_) =
          ap
            (λ n.
              iterate_loop (on_write_file_piece create_new write_at data_) list start_bytes
                end_bytes (file_offsets (total_length c.before) (length c.before) c.inside) n
                (p ++ (q ++ r)))
            (sym zero_consumed)
          ∙ done.run
          ∙ ap (λ n. some (p ++ (done.result ++ r), n)) all_consumed in
        let end : (length data_ == end_bytes - start_bytes) ≡ true = ground arith in
        record {
          result = p ++ (done.result ++ r);
          run =
              rw (lt→ltb start_bytes end_bytes (omega arith), c.it_start, c.it_end_found, c.range)
                (rw (run0, end) refl);
          bytes =
              subst
                (λ fs'.
                  bytes_on_disk fs.new_contents fs' (p ++ (done.result ++ r))
                  ≡ overwrite start_bytes data_ 0
                      (bytes_on_disk fs.new_contents fs' (p ++ (q ++ r))))
                (sym c.split)
                (bytes_of_parts c.before c.inside c.after p q r hp hq hr c.from c.to done.result
                  done.same_length done.bytes);
          counted = omega (
            arith,
            done.counted,
            plain_written-append p (done.result ++ r),
            plain_written-append done.result r,
            plain_written-append p (q ++ r),
            plain_written-append q r,
          );
        }

    write_found :
        (c : Parts start_bytes end_bytes list files) (disk : List PhysicalFile)
        → AreReady fs.new_contents start_bytes end_bytes 0 (c.before ++ (c.inside ++ c.after)) disk
        → RangeWritten files disk
    write_found c disk h =
        let one = AreReady-split fs.new_contents 0 c.before (c.inside ++ c.after) disk h in
        let rest : AreReady fs.new_contents start_bytes end_bytes (total_length c.before)
            (c.inside ++ c.after) one.1 =
          subst (λ b. AreReady fs.new_contents start_bytes end_bytes b (c.inside ++ c.after) one.1)
            (omega arith) one.4 in
        let two =
          AreReady-split fs.new_contents (total_length c.before) c.inside c.after one.1 rest in
        subst (λ d. RangeWritten files d) (sym (one.2 ∙ ap (◌++◌ one.0) two.2))
          (write_parts c one.0 two.0 two.1 one.3 two.3 two.4)

    pub write_range :
        (disk : List PhysicalFile)
        → AreReady fs.new_contents start_bytes end_bytes 0 files disk
        → RangeWritten files disk
    write_range disk h =
        let c : Parts start_bytes end_bytes list files =
          subst (λ e. Parts start_bytes e list files) (omega arith)
            (parts start_bytes (length data_ - 1) list files layout ne w (omega arith)) in
        write_found c disk
          (subst (λ fs'. AreReady fs.new_contents start_bytes end_bytes 0 fs' disk) c.split h)
