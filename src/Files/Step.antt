-- ===== src/Files/Step.antt =====
-- One call of on_write_file_piece, for a file that the range meets.
use bittorrent_client.Base.{
  ℕ, zero, suc, ◌+◌, ◌-◌, ◌^◌, ◌%◌, ◌≤◌, ◌<◌, ◌≡◌, refl, ap, sym, ◌∙◌, true, Option, some, List, [],
  ◌∷◌, ◌++◌, arith, length, min, max, take, drop, set, if◌then◌else◌, ◌==◌, lt→ltb, le→leb,
  length-take, length-drop, Bool-cases, inl, inr,
}
use bittorrent_client.Torrent.Metainfo.{File}
use bittorrent_client.Download.Pieces.{copy_at}
use bittorrent_client.Files.Iterate.{file_piece}
use bittorrent_client.Files.Disk.{
  FileHandle, invalid_handle_value, opened, closed, PhysicalFile, try_create, write, try_finalize,
  on_write_file_piece,
}
use bittorrent_client.Files.Layout.{offset_of}
use bittorrent_client.Files.Locate.{get_elem?-append}
use bittorrent_client.Files.Overwrite.{overwrite, overwrite_range}
use bittorrent_client.Files.Contents.{IsFileSystem, is_not_closed, overlap, contents_of, IsReady}

set-append :
    (p q : List PhysicalFile) (d d' : PhysicalFile) (i : ℕ)
    → i ≡ length p
    → set (p ++ d ∷ q) i d' ≡ p ++ d' ∷ q
set-append [] q d d' zero h = refl
set-append [] q d d' (suc i) h = absurd (omega arith)
set-append (x ∷ p) q d d' zero h = absurd (omega arith)
set-append (x ∷ p) q d d' (suc i) h = ap (◌∷◌ x) (set-append p q d d' i (omega arith))

module _ (create_new : List ℕ → ℕ → Option (List ℕ))
    (write_at : ℕ → List ℕ → List ℕ → Option (List ℕ)) (fs : IsFileSystem create_new write_at) where
  abbrev contents : File → FileHandle → List ℕ
  contents = contents_of fs.new_contents

  -- The file after the write.
  abbrev finished : ℕ → List ℕ → ℕ → PhysicalFile
  finished size bytes n = record {
    file = if n == size then closed bytes else opened bytes;
    written = n;
  }

  contents-finished :
      (f : File) (size n : ℕ) (bytes : List ℕ) → contents f (finished size bytes n).file ≡ bytes
  unfolding contents_of
  contents-finished f size n bytes = elim (Bool-cases (n == size)) [
    | inl e ↦ rw (e) refl
    | inr e ↦ rw (e) refl
  ]

  try_create_lem :
      (f : File) (h : FileHandle) (n : ℕ)
      → is_not_closed h ≡ true
      → try_create create_new write_at f.path_utf8 f.length_bytes (record { file = h; written = n })
        ≡ some (record { file = opened (contents f h); written = n })
  unfolding try_create contents_of is_not_closed
  try_create_lem f invalid_handle_value n h = rw (fs.creates f.path_utf8 f.length_bytes) refl
  try_create_lem f (opened bytes) n h = refl
  try_create_lem f (closed bytes) n h = cc

  write_lem :
      (data_ bytes : List ℕ) (offset n : ℕ)
      → offset + length data_ ≤ length bytes
      → write create_new write_at data_ offset (record { file = opened bytes; written = n })
        ≡ some (record {
          file = opened (copy_at offset data_ bytes);
          written = (n + length data_) % 2 ^ 64;
        })
  unfolding write
  write_lem data_ bytes offset n h = rw (fs.writes offset data_ bytes h) refl

  try_finalize_lem :
      (size n : ℕ) (bytes : List ℕ)
      → n ≤ size
      → try_finalize create_new write_at size (record { file = opened bytes; written = n })
        ≡ some (finished size bytes n)
  unfolding try_finalize
  try_finalize_lem size n bytes h = elim (Bool-cases (n == size)) [
    | inl e ↦ rw (le→leb n size h, e) refl
    | inr e ↦ rw (le→leb n size h, e) refl
  ]

  module _ (data_ : List ℕ) (start_bytes base : ℕ) (f : File) (d : PhysicalFile)
      (r : IsReady fs.new_contents start_bytes (start_bytes + length data_) base f d)
      (some_data : 0 < length data_) (small : length data_ < 2 ^ 32) (nonempty : 0 < f.length_bytes)
      (size : f.length_bytes < 2 ^ 64) (h1 : start_bytes < base + f.length_bytes)
      (h2 : base < start_bytes + length data_) where
    abbrev count : ℕ
    count = overlap start_bytes (start_bytes + length data_) base f

    abbrev piece_data : List ℕ
    piece_data = take count (drop (max start_bytes base - start_bytes) data_)

    abbrev pub written_file : PhysicalFile
    written_file =
        finished f.length_bytes
          (copy_at (max start_bytes base - base) piece_data (contents f d.file)) (d.written + count)

    pub written_file-contents :
        contents f written_file.file ≡ overwrite start_bytes data_ base (contents f d.file)
    written_file-contents =
        contents-finished f f.length_bytes (d.written + count)
          (copy_at (max start_bytes base - base) piece_data (contents f d.file))
        ∙ sym (
            overwrite_range start_bytes data_ base (contents f d.file) (omega (arith, r.size)) h2
            ∙ ap
                (λ n.
                  copy_at (max start_bytes base - base)
                    (take (min (base + n) (start_bytes + length data_) - max start_bytes base)
                      (drop (max start_bytes base - start_bytes) data_))
                    (contents f d.file))
                r.size)

    pub on_write_file_piece_lem :
        (i : ℕ) (p q : List PhysicalFile)
        → i ≡ length p
        → on_write_file_piece create_new write_at data_
            (file_piece start_bytes
              (start_bytes + length data_)
              (max start_bytes base - start_bytes)
              (offset_of base i f)
              f)
            (p ++ d ∷ q)
          ≡ some (p ++ written_file ∷ q)
    unfolding on_write_file_piece
    on_write_file_piece_lem i p q h =
        let c : 0 < count = omega arith in
        let m : count % 2 ^ 32 ≡ count = omega arith in
        let n : length piece_data ≡ count = omega (
          arith,
          length-take count (drop (max start_bytes base - start_bytes) data_),
          length-drop (max start_bytes base - start_bytes) data_,
        ) in
        let e : (d.written + length piece_data) % 2 ^ 64 ≡ d.written + count =
          omega (arith, r.room c) in
        rw
          (
            get_elem?-append p q d i h,
            lt→ltb (max start_bytes base - start_bytes) (length data_) (omega arith),
            lt→ltb 0 count c,
            m,
            try_create_lem f d.file d.written (r.not_closed c),
            write_lem piece_data (contents f d.file) (max start_bytes base - base) d.written
                (omega (arith, r.size)),
            e,
            try_finalize_lem f.length_bytes (d.written + count)
                (copy_at (max start_bytes base - base) piece_data (contents f d.file)) (r.room c),
            set-append p q d written_file i h,
          )
          refl
