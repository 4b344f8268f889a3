-- ===== src/Files/Contents.antt =====
-- The contents of the files on the disk, and what the operating system promises of its calls.
use bittorrent_client.Base.{
  subst, ℕ, suc, ◌+◌, ◌-◌, ◌^◌, ◌%◌, ◌≤◌, ◌<◌, ◌≡◌, refl, ap, sym, Bool, true, false, Option, some,
  List, [], ◌∷◌, ◌++◌, arith, length, min, max, append_assoc, length-append,
}
use bittorrent_client.Torrent.Metainfo.{File}
use bittorrent_client.Download.Pieces.{copy_at}
use bittorrent_client.Files.Disk.{
  FileHandle, invalid_handle_value, opened, closed, PhysicalFile, sum_written, total_written,
}
use bittorrent_client.Files.Layout.{total_length}

-- A new file has the size that SetEndOfFile asks for; a write inside a file changes those bytes only.
pub record IsFileSystem (create_new : List ℕ → ℕ → Option (List ℕ))
    (write_at : ℕ → List ℕ → List ℕ → Option (List ℕ)) : Type 0 where
  pub new_contents : List ℕ → ℕ → List ℕ
  pub creates : (name : List ℕ) (size : ℕ) → create_new name size ≡ some (new_contents name size)
  pub length-new : (name : List ℕ) (size : ℕ) → length (new_contents name size) ≡ size
  pub writes :
      (offset : ℕ) (data_ old : List ℕ)
      → offset + length data_ ≤ length old
      → write_at offset data_ old ≡ some (copy_at offset data_ old)

unfoldable pub is_not_closed : FileHandle → Bool
is_not_closed (closed bytes) = false
is_not_closed (opened bytes) = true
is_not_closed invalid_handle_value = true

-- The bytes of a file at `base` that a range has.
abbrev pub overlap : ℕ → ℕ → ℕ → File → ℕ
overlap start_bytes end_bytes base f = min (base + f.length_bytes) end_bytes - max start_bytes base

unfoldable pub plain_written : List PhysicalFile → ℕ
plain_written [] = 0
plain_written (d ∷ ds) = d.written + plain_written ds

sum_written_lem :
    (total : ℕ) (ds : List PhysicalFile)
    → total < 2 ^ 64
    → sum_written total ds ≡ (total + plain_written ds) % 2 ^ 64
unfolding sum_written plain_written
sum_written_lem total [] h = omega arith
sum_written_lem total (d ∷ ds) h =
    omega (arith, sum_written_lem ((total + d.written) % 2 ^ 64) ds (omega arith))

pub total_written_lem : (ds : List PhysicalFile) → total_written ds ≡ plain_written ds % 2 ^ 64
unfolding total_written
total_written_lem ds = omega (arith, sum_written_lem 0 ds (omega arith))

pub plain_written-append :
    (xs ys : List PhysicalFile) → plain_written (xs ++ ys) ≡ plain_written xs + plain_written ys
unfolding plain_written
plain_written-append [] ys = omega arith
plain_written-append (x ∷ xs) ys = omega (arith, plain_written-append xs ys)

module _ (new_contents : List ℕ → ℕ → List ℕ) where
  -- A file that is not created yet counts with what its creation gives.
  unfoldable pub contents_of : File → FileHandle → List ℕ
  contents_of f invalid_handle_value = new_contents f.path_utf8 f.length_bytes
  contents_of f (opened bytes) = bytes
  contents_of f (closed bytes) = bytes

  -- All the files, one after another.
  unfoldable pub bytes_on_disk : List File → List PhysicalFile → List ℕ
  bytes_on_disk (f ∷ fs) (d ∷ ds) = contents_of f d.file ++ bytes_on_disk fs ds
  bytes_on_disk _ _ = []

  -- A file that the range [start_bytes; end_bytes) meets is not complete and has room.
  pub record IsReady (start_bytes end_bytes base : ℕ) (f : File) (d : PhysicalFile) : Type 0 where
    pub size : length (contents_of f d.file) ≡ f.length_bytes
    pub not_closed : 0 < overlap start_bytes end_bytes base f → is_not_closed d.file ≡ true
    pub room :
        0 < overlap start_bytes end_bytes base f
        → d.written + overlap start_bytes end_bytes base f ≤ f.length_bytes

  pub data AreReady (start_bytes end_bytes : ℕ) : ℕ → List File → List PhysicalFile → Type 0 where
    none_left : {base : ℕ} → AreReady start_bytes end_bytes base [] []
    ready :
        {base : ℕ} {f : File} {d : PhysicalFile} {fs : List File} {ds : List PhysicalFile}
        → IsReady start_bytes end_bytes base f d
        → AreReady start_bytes end_bytes (base + f.length_bytes) fs ds
        → AreReady start_bytes end_bytes base (f ∷ fs) (d ∷ ds)

  module _ {start_bytes end_bytes : ℕ} where
    pub AreReady-length :
        {base : ℕ} {fs : List File} {ds : List PhysicalFile}
        → AreReady start_bytes end_bytes base fs ds
        → length fs ≡ length ds
    AreReady-length none_left = refl
    AreReady-length (ready r rs) = ap suc (AreReady-length rs)

    pub AreReady-bytes :
        {base : ℕ} {fs : List File} {ds : List PhysicalFile}
        → AreReady start_bytes end_bytes base fs ds
        → length (bytes_on_disk fs ds) ≡ total_length fs
    unfolding bytes_on_disk total_length
    AreReady-bytes none_left = refl
    AreReady-bytes (ready {f = f} {d = d} {fs = fs} {ds = ds} r rs) = omega (
      arith,
      length-append (contents_of f d.file) (bytes_on_disk fs ds),
      r.size,
      AreReady-bytes rs,
    )

    -- The disk's part for the first files, and the rest.
    pub AreReady-split :
        (base : ℕ) (xs ys : List File) (ds : List PhysicalFile)
        → AreReady start_bytes end_bytes base (xs ++ ys) ds
        → (p : List PhysicalFile) × (q : List PhysicalFile) × (ds ≡ p ++ q)
          × AreReady start_bytes end_bytes base xs p
          × AreReady start_bytes end_bytes (base + total_length xs) ys q
    unfolding total_length
    AreReady-split base [] ys ds h = (
      [],
      ds,
      refl,
      none_left,
      subst (λ b. AreReady start_bytes end_bytes b ys ds) (omega arith) h,
    )
    AreReady-split base (x ∷ xs) ys [] h = elim h [ ]
    AreReady-split base (x ∷ xs) ys (d ∷ ds) (ready r rs) =
        let rest = AreReady-split (base + x.length_bytes) xs ys ds rs in
        (
          d ∷ rest.0,
          rest.1,
          ap (◌∷◌ d) rest.2,
          ready r rest.3,
          subst (λ b. AreReady start_bytes end_bytes b ys rest.1) (omega arith) rest.4,
        )

  pub bytes_on_disk-append :
      (xs ys : List File) (p q : List PhysicalFile)
      → length xs ≡ length p
      → bytes_on_disk (xs ++ ys) (p ++ q) ≡ bytes_on_disk xs p ++ bytes_on_disk ys q
  unfolding bytes_on_disk
  bytes_on_disk-append [] ys [] q h = refl
  bytes_on_disk-append [] ys (d ∷ p) q h = absurd (omega arith)
  bytes_on_disk-append (x ∷ xs) ys [] q h = absurd (omega arith)
  bytes_on_disk-append (x ∷ xs) ys (d ∷ p) q h =
      rw (bytes_on_disk-append xs ys p q (omega arith))
        (sym (append_assoc (contents_of x d.file) (bytes_on_disk xs p) (bytes_on_disk ys q)))
