-- ===== src/Files/Made.antt =====
-- FilesList::make of src/bittorrent_client/main.cpp on a torrent with files.
use bittorrent_client.Base.{
  ℕ, zero, suc, ◌+◌, ◌^◌, ◌%◌, ◌<◌, ◌≡◌, refl, ap, ap₂, ◌∙◌, length, take, some, List, [], ◌∷◌,
  arith, get_elem?, ==_refl,
}
use bittorrent_client.Torrent.Metainfo.{
  File, LengthOrFiles, neither, single_length, several_files, TorrentMetainfo,
}
use bittorrent_client.Client.Totals.{add_lengths, get_total_size_bytes}
use bittorrent_client.Files.Offsets.{FilesList, file_offsets, back_end, make_files_list}
use bittorrent_client.Files.Iterate.{file_of}
use bittorrent_client.Files.Layout.{total_length, offset_of, length-file_offsets}

-- The files of a torrent: a single one has the torrent's name.
unfoldable pub files_of : TorrentMetainfo → List File
files_of t = elim (t.length_or_files) [
  | neither ↦ []
  | single_length n ↦ record { length_bytes = n; path_utf8 = t.suggested_name_utf8 } ∷ []
  | several_files files ↦ files
]

add_lengths_lem :
    (total : ℕ) (files : List File)
    → total + total_length files < 2 ^ 64
    → add_lengths total files ≡ total + total_length files
unfolding add_lengths total_length
add_lengths_lem total [] h = omega arith
add_lengths_lem total (f ∷ files) h =
    omega (arith, add_lengths_lem ((total + f.length_bytes) % 2 ^ 64) files (omega arith))

back_end-file_offsets :
    (base i : ℕ) (f : File) (files : List File)
    → base + total_length (f ∷ files) < 2 ^ 64
    → back_end (file_offsets base i (f ∷ files)) ≡ some (base + total_length (f ∷ files))
unfolding back_end file_offsets total_length
back_end-file_offsets base i f [] h = ap some (omega arith)
back_end-file_offsets base i f (g ∷ files) h =
    back_end-file_offsets ((base + f.length_bytes) % 2 ^ 64) (suc i) g files (omega arith)
    ∙ ap some (omega arith)

-- The offsets of the files, one after another.
unfoldable pub list_of : TorrentMetainfo → FilesList
list_of t = record { torrent = t; files_offset = file_offsets 0 0 (files_of t) }

pub back_end-file_offsets_zero :
    (files : List File)
    → 0 < total_length files
    → total_length files < 2 ^ 64
    → back_end (file_offsets 0 0 files) ≡ some (total_length files)
unfolding total_length
back_end-file_offsets_zero [] h w = absurd (omega arith)
back_end-file_offsets_zero (f ∷ files) h w =
    back_end-file_offsets 0 0 f files (omega (arith, w)) ∙ ap some (omega arith)

make_from :
    (t : TorrentMetainfo) (lof : LengthOrFiles)
    → let t' : TorrentMetainfo = record t { length_or_files = lof } in
      0 < total_length (files_of t')
      → total_length (files_of t') < 2 ^ 64
      → make_files_list t' ≡ some (list_of t')
unfolding make_files_list list_of files_of get_total_size_bytes total_length file_offsets
make_from t neither h w = absurd (omega arith)
make_from t (single_length n) h w =
    let e : n % 2 ^ 64 ≡ n = omega arith in
    rw (==_refl n) (
      ap
        (λ m. some (record {
          torrent = record t { length_or_files = single_length n };
          files_offset = record { start = 0; end = m; file_index = 0 } ∷ [];
        }))
        (omega arith))
make_from t (several_files files) h w =
    rw (back_end-file_offsets_zero files h w, add_lengths_lem 0 files (omega arith)) (ground arith)

-- The offsets from `base` on, and the index `i`.
file_offsets-get_elem? :
    (base i j : ℕ) (f : File) (files : List File)
    → base + total_length files < 2 ^ 64
    → get_elem? files j ≡ some f
    → get_elem? (file_offsets base i files) j
      ≡ some (offset_of (base + total_length (take j files)) (i + j) f)
unfolding file_offsets total_length
file_offsets-get_elem? base i j f [] w h = cc
file_offsets-get_elem? base i zero f (g ∷ files) w h =
    let same : g ≡ f = cc in
    let small : base + g.length_bytes < 2 ^ 64 = omega arith in
    rw (← same) (
      ap₂
        (λ (s k : ℕ).
          some (record { start = s; end = (base + g.length_bytes) % 2 ^ 64; file_index = k }))
        (omega arith) (omega arith)
      ∙ ap (λ (e : ℕ). some (record { start = base + 0; end = e; file_index = i + 0 }))
          (omega arith))
file_offsets-get_elem? base i (suc j) f (g ∷ files) w h =
    let next : (base + g.length_bytes) % 2 ^ 64 ≡ base + g.length_bytes = omega arith in
    file_offsets-get_elem? ((base + g.length_bytes) % 2 ^ 64) (suc i) j f files (omega arith) h
    ∙ ap₂ (λ (b k : ℕ). some (offset_of b k f)) (omega arith) (omega arith)

-- On a torrent whose files are not all empty and whose lengths add up to less than 2^64, the assertions of
-- FilesList::make hold, and its list has one offset for each file, at the index of the file: it has that index,
-- starts at the sum of the lengths of the files before it and ends the file's length after its start.
pub make_files_list_lem :
    (t : TorrentMetainfo)
    → 0 < total_length (files_of t)
    → total_length (files_of t) < 2 ^ 64
    → (l : FilesList) × (make_files_list t ≡ some l)
      × (l.torrent ≡ t)
      × (length l.files_offset ≡ length (files_of t))
      × ((j : ℕ) (f : File)
          → get_elem? (files_of t) j ≡ some f
          → get_elem? l.files_offset j ≡ some (offset_of (total_length (take j (files_of t))) j f))
unfolding list_of
make_files_list_lem t h w = (
  list_of t,
  make_from t t.length_or_files h w,
  refl,
  length-file_offsets 0 0 (files_of t),
  λ j f e.
      file_offsets-get_elem? 0 0 j f (files_of t) (omega (arith, w)) e
      ∙ ap₂ (λ (b k : ℕ). some (offset_of b k f)) (omega arith) (omega arith),
)

names_from :
    (t : TorrentMetainfo) (lof : LengthOrFiles)
    → let t' : TorrentMetainfo = record t { length_or_files = lof } in
      total_length (files_of t') < 2 ^ 64
      → (base i : ℕ) (f : File) → get_elem? (files_of t') i ≡ some f
      → file_of (list_of t') (offset_of base i f) ≡ some f
unfolding file_of files_of list_of file_offsets total_length
names_from t neither w base i f h = h
names_from t (single_length n) w base zero f h =
    ap (λ m. some (record { length_bytes = m; path_utf8 = t.suggested_name_utf8 })) (omega arith)
    ∙ h
names_from t (single_length n) w base (suc i) f h = cc
names_from t (several_files files) w base i f h = h

pub file_of-list_of :
    (t : TorrentMetainfo)
    → total_length (files_of t) < 2 ^ 64
    → (base i : ℕ) (f : File) → get_elem? (files_of t) i ≡ some f
    → file_of (list_of t) (offset_of base i f) ≡ some f
file_of-list_of t = names_from t t.length_or_files
