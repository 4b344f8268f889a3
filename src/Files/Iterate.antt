-- ===== src/Files/Iterate.antt =====
-- FilesList::iterate_files of src/bittorrent_client/main.cpp. The callback takes a state and returns the
-- next one, `none` where an assertion in it fails; so do the functions here.
use bittorrent_client.Base.{
  ℕ, zero, suc, ◌+◌, ◌-◌, ◌*◌, ◌%◌, ◌^◌, Bool, ◌&&◌, Option, none, some, List, [], ◌∷◌, ltb, leb,
  ◌==◌, if◌then◌else◌, length, take, drop, get_elem?, min, max,
}
use bittorrent_client.Torrent.Metainfo.{File, neither, single_length, several_files}
use bittorrent_client.Client.Totals.{get_piece_size_bytes}
use bittorrent_client.Wire.Bytes.{◌>>=◌}
use bittorrent_client.Files.Offsets.{FileOffset, FilePiece, FilesList, back_end}

-- std::lower_bound: the index of the first element that does not pass the test.
unfoldable pub lower_bound {ℓ} : {A : Type ℓ} → (A → Bool) → List A → ℕ
lower_bound test [] = 0
lower_bound test (x ∷ xs) = let rest = lower_bound test xs in if test x then suc rest else 0

-- `none` where the assertion fails.
abbrev pub assert : Bool → Option (Unit {0})
assert b = if b then some tt else none

-- `it_start` of an `it_start` before the decrement: `--it_start` from the beginning leaves the list.
abbrev pub step_back : ℕ → FileOffset → ℕ → Option ℕ
step_back start_bytes fo i =
    if ltb start_bytes fo.start then elim i [ zero ↦ none | suc j ↦ some j ] else some i

-- `it_start` from the iterator at `i`, with its assertion.
unfoldable pub adjust_start : List FileOffset → ℕ → ℕ → Option ℕ
adjust_start fos start_bytes i = get_elem? fos i >>= λ fo. step_back start_bytes fo i >>= λ j.
    get_elem? fos j >>= λ first.
    assert (leb first.start start_bytes && ltb start_bytes first.end) >>= λ _. some j

-- `it_start`.
unfoldable pub find_start : List FileOffset → ℕ → Option ℕ
unfolding lower_bound adjust_start
find_start fos start_bytes =
    let found : ℕ = lower_bound (λ fo. ltb fo.start start_bytes) fos in
    adjust_start fos start_bytes (if found == length fos then length fos - 1 else found)

-- `it_end`, counted from `it_start`, with its assertions. `fos` begins at `it_start`.
unfoldable pub find_end : List FileOffset → ℕ → Option ℕ
unfolding lower_bound
find_end fos end_bytes =
    let i : ℕ = lower_bound (λ fo. ltb fo.end end_bytes) fos in
    get_elem? fos i >>= λ last.
    assert (ltb last.start end_bytes && leb end_bytes last.end) >>= λ _. some i

-- The name and the size of a file.
unfoldable pub file_of : FilesList → FileOffset → Option File
file_of list fo = elim (list.torrent.length_or_files) [
  | several_files files ↦ get_elem? files fo.file_index
  | single_length n ↦ get_elem? list.files_offset 0 >>= λ first.
      some (record { length_bytes = first.end; path_utf8 = list.torrent.suggested_name_utf8 })
  | neither ↦ none
]

abbrev pub file_piece : ℕ → ℕ → ℕ → FileOffset → File → FilePiece
file_piece start_bytes end_bytes data_offset fo file = record {
  file_index = fo.file_index;
  file_name = file.path_utf8;
  file_offset = max start_bytes fo.start - fo.start;
  bytes_count = min fo.end end_bytes - max start_bytes fo.start;
  piece_offset = data_offset;
  file_size = file.length_bytes;
}

module _ {ℓ} {S : Type ℓ} (f : FilePiece → S → Option S) where
  -- The loop over [it_start; it_end]: the next state and `data_offset`.
  unfoldable pub iterate_loop : FilesList → ℕ → ℕ → List FileOffset → ℕ → S → Option (S × ℕ)
  unfolding file_of
  iterate_loop list start_bytes end_bytes [] data_offset s = some (s, data_offset)
  iterate_loop list start_bytes end_bytes (fo ∷ fos) data_offset s = file_of list fo >>= λ file.
      f (file_piece start_bytes end_bytes data_offset fo file) s >>= λ s'.
      iterate_loop list start_bytes end_bytes fos
        (data_offset + (file_piece start_bytes end_bytes data_offset fo file).bytes_count) s'

  -- iterate_files on a range of bytes.
  unfoldable pub iterate_files : FilesList → ℕ → ℕ → S → Option S
  unfolding find_start find_end iterate_loop
  iterate_files list start_bytes end_bytes s = assert (ltb start_bytes end_bytes) >>= λ _.
      find_start list.files_offset start_bytes >>= λ it_start.
      find_end (drop it_start list.files_offset) end_bytes >>= λ it_end.
      iterate_loop list start_bytes end_bytes (take (suc it_end) (drop it_start list.files_offset))
        0 s
      >>= λ r. assert (r.1 == end_bytes - start_bytes) >>= λ _. some r.0

  -- iterate_files on a piece. The products are of 32-bit words.
  unfoldable pub iterate_piece : FilesList → ℕ → S → Option S
  unfolding iterate_files back_end
  iterate_piece list piece_index s =
      let size : ℕ = get_piece_size_bytes list.torrent in
      back_end list.files_offset >>= λ total_size.
      iterate_files list (piece_index * size % 2 ^ 32)
        (min ((piece_index + 1) % 2 ^ 32 * size % 2 ^ 32) total_size) s
