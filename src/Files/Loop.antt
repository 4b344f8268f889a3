-- ===== src/Files/Loop.antt =====
-- The loop of iterate_files with on_write_file_piece, over files that the range meets.
use bittorrent_client.Base.{
  ℕ, suc, ◌+◌, ◌-◌, ◌^◌, ◌%◌, ◌<◌, ◌≡◌, refl, ap, ap₂, sym, ◌∙◌, Option, some, List, [], ◌∷◌, ◌++◌,
  arith, length, min, max, append_assoc, length-append, get_elem?, subst,
}
use bittorrent_client.Torrent.Metainfo.{File}
use bittorrent_client.Files.Offsets.{FilesList, file_offsets}
use bittorrent_client.Files.Iterate.{file_of, iterate_loop}
use bittorrent_client.Files.Disk.{PhysicalFile, on_write_file_piece}
use bittorrent_client.Files.Layout.{total_length, offset_of, AllNonempty}
use bittorrent_client.Files.Locate.{get_elem?-append}
use bittorrent_client.Files.Overwrite.{overwrite, overwrite-append}
use bittorrent_client.Files.Contents.{
  IsFileSystem, overlap, contents_of, AreReady, none_left, ready, bytes_on_disk, plain_written,
}
use bittorrent_client.Files.Step.{written_file, written_file-contents, on_write_file_piece_lem}

-- Every file of `files`, from the offset `base` on, meets the range.
unfoldable pub Meet : ℕ → ℕ → ℕ → List File → Type 0
Meet start_bytes end_bytes base [] = Unit
Meet start_bytes end_bytes base (f ∷ files) =
    (start_bytes < base + f.length_bytes)
    × (base < end_bytes)
    × Meet start_bytes end_bytes (base + f.length_bytes) files

-- `data_offset` at a file that begins at `base`.
abbrev pub consumed : ℕ → ℕ → ℕ → ℕ
consumed start_bytes end_bytes base = min (max start_bytes base) end_bytes - start_bytes

module _ (create_new : List ℕ → ℕ → Option (List ℕ))
    (write_at : ℕ → List ℕ → List ℕ → Option (List ℕ)) (fs : IsFileSystem create_new write_at)
    (list : FilesList) (data_ : List ℕ) (start_bytes : ℕ) (some_data : 0 < length data_)
    (small : length data_ < 2 ^ 32) where
  abbrev end_bytes : ℕ
  end_bytes = start_bytes + length data_

  -- The files that the loop starts with, between the others, and what it makes of them.
  pub record LoopDone (base i : ℕ) (files : List File) (p q r : List PhysicalFile) : Type 0 where
    pub result : List PhysicalFile
    pub run :
        iterate_loop
          (on_write_file_piece create_new write_at data_)
          list
          start_bytes
          end_bytes
          (file_offsets base i files)
          (consumed start_bytes end_bytes base)
          (p ++ (q ++ r))
        ≡ some (p ++ (result ++ r), consumed start_bytes end_bytes (base + total_length files))
    pub bytes :
        bytes_on_disk fs.new_contents files result
        ≡ overwrite start_bytes data_ base (bytes_on_disk fs.new_contents files q)
    pub same_length : length result ≡ length q
    pub counted :
        plain_written result + consumed start_bytes end_bytes base
        ≡ plain_written q + consumed start_bytes end_bytes (base + total_length files)

  pub iterate_loop_lem :
      (base i : ℕ) (before files after : List File) (p q r : List PhysicalFile)
      → ((base' j : ℕ) (f : File)
          → get_elem? (before ++ (files ++ after)) j ≡ some f
          → file_of list (offset_of base' j f) ≡ some f)
      → i ≡ length before
      → i ≡ length p
      → AllNonempty files
      → base + total_length files < 2 ^ 64
      → Meet start_bytes end_bytes base files
      → AreReady fs.new_contents start_bytes end_bytes base files q
      → LoopDone base i files p q r
  unfolding iterate_loop file_offsets total_length bytes_on_disk overwrite Meet AllNonempty
      plain_written
  iterate_loop_lem base i before [] after p [] r names h1 h2 ne w meet none_left = record {
    result = [];
    run = ap (λ n. some (p ++ r, consumed start_bytes end_bytes n)) (omega arith);
    bytes = refl;
    same_length = refl;
    counted = omega arith;
  }
  iterate_loop_lem base i before [] after p (d ∷ q) r names h1 h2 ne w meet rds = elim rds [ ]
  iterate_loop_lem base i before (f ∷ files) after p [] r names h1 h2 ne w meet rds = elim rds [ ]
  iterate_loop_lem base i before (f ∷ files) after p (d ∷ q) r names h1 h2 ne w meet
        (ready rd rds) =
      let size : f.length_bytes < 2 ^ 64 = omega arith in
      let d' : PhysicalFile =
        written_file create_new write_at fs data_ start_bytes base f d rd some_data small ne.0 size
          meet.0 meet.1 in
      let next =
        iterate_loop_lem (base + f.length_bytes) (suc i) (before ++ f ∷ []) files after
          (p ++ d' ∷ []) q r
          (λ base' j g e. names base' j g (
            subst (λ xs. get_elem? xs j ≡ some g) (append_assoc before (f ∷ []) (files ++ after))
              e))
          (omega (arith, length-append before (f ∷ []))) (omega (arith, length-append p (d' ∷ [])))
          ne.1 (omega arith) meet.2 rds in
      let whole : (base + f.length_bytes) % 2 ^ 64 ≡ base + f.length_bytes = omega arith in
      let here : consumed start_bytes end_bytes base ≡ max start_bytes base - start_bytes =
        omega (arith, meet.1) in
      let there : max start_bytes base - start_bytes + overlap start_bytes end_bytes base f
          ≡ consumed start_bytes end_bytes (base + f.length_bytes) =
        omega (arith, meet.0, meet.1) in
      record {
        result = d' ∷ next.result;
        run =
            rw
              (
                whole,
                names base i f (get_elem?-append before (files ++ after) f i h1),
                here,
                on_write_file_piece_lem create_new write_at fs data_ start_bytes base f d rd
                    some_data small ne.0 size meet.0 meet.1 i p (q ++ r) h2,
                there,
              )
              (ap
                  (iterate_loop (on_write_file_piece create_new write_at data_) list start_bytes
                    end_bytes (file_offsets (base + f.length_bytes) (suc i) files)
                    (consumed start_bytes end_bytes (base + f.length_bytes)))
                  (sym (append_assoc p (d' ∷ []) (q ++ r)))
                ∙ next.run
                ∙ ap₂ (λ ds n. some (ds, consumed start_bytes end_bytes n))
                    (append_assoc p (d' ∷ []) (next.result ++ r)) (omega arith));
        bytes =
            ap₂ ◌++◌
              (written_file-contents create_new write_at fs data_ start_bytes base f d rd some_data
                small ne.0 size meet.0 meet.1)
              next.bytes
            ∙ ap
                (λ n.
                  overwrite start_bytes data_ base (contents_of fs.new_contents f d.file)
                  ++ overwrite start_bytes data_ (base + n) (bytes_on_disk fs.new_contents files q))
                (sym rd.size)
            ∙ sym (
                overwrite-append start_bytes data_ base (contents_of fs.new_contents f d.file)
                  (bytes_on_disk fs.new_contents files q));
        same_length = ap suc next.same_length;
        counted = omega (arith, next.counted, meet.0, meet.1);
      }
