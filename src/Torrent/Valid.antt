-- ===== src/Torrent/Valid.antt =====
-- What holds of the metainfo that ParseTorrentFileContent returns.
use bittorrent_client.Base.{
  ℕ, ◌%◌, ◌<◌, ◌≡◌, refl, ◌||◌, not, ◌&&◌, Option, none, some, List, [], ◌∷◌, ◌++◌, Ensures, holds,
  rejected, Ensures-bind, Ensures-if, Ensures-mono, bytes_eq, length, arith, ◌==◌, All, Bool-cases,
  inl, inr,
}
use bittorrent_client.Bencode.Elements.{
  View, ElementPosition, ElementRef, element, string, ListRef, DictionaryRef, no_elements,
  add_element, no_entries, add_entry, as_string,
}
use bittorrent_client.Bencode.Length.{u64_mod}
use bittorrent_client.Torrent.Values.{IsCode, element_as_string}
use bittorrent_client.Torrent.Metainfo.{
  File, LengthOrFiles, neither, single_length, several_files, TorrentMetainfo, Setter, is_placed,
  parse_info_name, parse_info_piece_length, parse_info_pieces, parse_info_length,
}
use bittorrent_client.Torrent.File.{
  join_parts, check_parts, parse_info_files_file, Found, file_step, file_loop, parse_file,
  parse_files, parse_info_files, file_of, key_length, key_path, is_null, place_files,
}
use bittorrent_client.Torrent.Invoke.{AllValues}
use bittorrent_client.Torrent.Encoded.{
  IsEncoded, AllElements, element_as_string-Ensures, element_as_integer-Ensures,
  element_as_list-Ensures, element_as_dictionary-Ensures, parse_as_uint64-Ensures,
}

-- A length of 64 bits, or at least one file, each with a length of 64 bits.
abbrev pub IsSized : LengthOrFiles → Type 0
IsSized neither = Unit {0}
IsSized (single_length n) = n < u64_mod
IsSized (several_files fs) = (0 < length fs) × All (λ (f : File). f.length_bytes < u64_mod) fs

-- What holds of the metainfo at every time.
pub record IsSound (m : TorrentMetainfo) : Type 0 where
  pub hashes : length m.pieces_sha1 % 20 ≡ 0
  pub piece_fits : m.piece_length_bytes < u64_mod
  pub sized : IsSized m.length_or_files

-- A parser that keeps the invariant and what is complete.
abbrev pub KeepsSound : Setter → Type 0
KeepsSound f =
    (m : TorrentMetainfo) (e : ElementRef)
    → IsSound m
    → IsEncoded e
    → Ensures IsCode IsSound (f m e)

module _ (m : TorrentMetainfo) (e : ElementRef) (h : IsSound m) (enc : IsEncoded e) where
  pub parse_info_name-Ensures : Ensures IsCode IsSound (parse_info_name m e)
  unfolding parse_info_name
  parse_info_name-Ensures = Ensures-bind (element_as_string-Ensures e enc) λ str w.
      Ensures-if (str.size == 0) (λ _. holds h)
        (λ _. holds (record { hashes = h.hashes; piece_fits = h.piece_fits; sized = h.sized }))

  pub parse_info_piece_length-Ensures : Ensures IsCode IsSound (parse_info_piece_length m e)
  unfolding parse_info_piece_length
  parse_info_piece_length-Ensures = Ensures-bind (element_as_integer-Ensures e) λ n _.
      Ensures-bind (parse_as_uint64-Ensures n)
        λ k fits. holds (record { hashes = h.hashes; piece_fits = fits; sized = h.sized })

  pub parse_info_pieces-Ensures : Ensures IsCode IsSound (parse_info_pieces m e)
  unfolding parse_info_pieces
  parse_info_pieces-Ensures = Ensures-bind (element_as_string-Ensures e enc) λ str w.
      Ensures-if (str.size == 0 || not (str.size % 20 == 0)) (λ _. rejected tt)
        (λ t.
          holds (record { hashes = ground (arith, w); piece_fits = h.piece_fits; sized = h.sized }))

  pub parse_info_length-Ensures : Ensures IsCode IsSound (parse_info_length m e)
  unfolding parse_info_length
  parse_info_length-Ensures =
      Ensures-if (is_placed m.length_or_files) (λ _. rejected tt)
        (λ _. Ensures-bind (element_as_integer-Ensures e) λ n _.
          Ensures-bind (parse_as_uint64-Ensures n)
            λ k fits. holds (record { hashes = h.hashes; piece_fits = h.piece_fits; sized = fits }))

join_add :
    (v : View) (p : ElementPosition) (es : ListRef) (path : List ℕ)
    → join_parts es ≡ some path
    → (path' : List ℕ) × (join_parts (add_element (element (string v) p) es) ≡ some path')
unfolding join_parts as_string
join_add v p no_elements path h = (v.bytes, refl)
join_add v p (add_element e es) path h = (v.bytes ++ b'/' ∷ path, rw h refl)

-- Once the parts are checked, the path can be joined.
check_parts-Ensures :
    (es : ListRef)
    → AllElements es
    → Ensures IsCode (λ _. (path : List ℕ) × (join_parts es ≡ some path)) (check_parts es)
unfolding check_parts join_parts element_as_string as_string
check_parts-Ensures no_elements h = holds ([], refl)
check_parts-Ensures (add_element (element (string v) p) es) h =
    Ensures-if (v.size == 0) (λ _. rejected tt)
      (λ _.
        Ensures-mono (check_parts-Ensures es h.1) λ _ (path, joined). join_add v p es path joined)
check_parts-Ensures (add_element (element _ p) es) h = rejected tt

parse_info_files_file-Ensures :
    (l p : ElementRef)
    → IsEncoded p
    → Ensures IsCode (λ f. f.length_bytes < u64_mod) (parse_info_files_file l p)
unfolding parse_info_files_file
parse_info_files_file-Ensures l p enc = Ensures-bind (element_as_integer-Ensures l) λ n _.
    Ensures-bind (element_as_list-Ensures p enc) λ parts all.
      Ensures-bind (parse_as_uint64-Ensures n) λ k fits.
        Ensures-bind (check_parts-Ensures parts all) λ _ (path, joined). rw joined (holds fits)

-- A found element is one of the dictionary's.
abbrev IsFound : Option ElementRef → Type 0
IsFound none = Unit {0}
IsFound (some e) = IsEncoded e

file_step-path :
    (f : Found) (name : List ℕ) (e : ElementRef)
    → IsFound f.path_element
    → IsEncoded e
    → IsFound ((file_step f name e).path_element)
unfolding file_step
file_step-path f name e h enc =
    elim (Bool-cases (bytes_eq name key_length && is_null f.length_element)) [
      | inl l ↦ rw l h
      | inr l ↦ elim (Bool-cases (bytes_eq name key_path && is_null f.path_element)) [
        | inl p ↦ rw (l, p) enc
        | inr p ↦ rw (l, p) h
      ]
    ]

file_loop-path :
    (f : Found) (d : DictionaryRef)
    → IsFound f.path_element
    → AllValues IsEncoded d
    → IsFound ((file_loop f d).path_element)
unfolding file_loop
file_loop-path f no_entries h v = h
file_loop-path f (add_entry name e d) h v =
    file_loop-path (file_step f name.bytes e) d (file_step-path f name.bytes e h v.0) v.1

file_of-Ensures :
    (l p : Option ElementRef)
    → IsFound p
    → Ensures IsCode (λ f. f.length_bytes < u64_mod) (file_of l p)
file_of-Ensures (some l) (some p) h = parse_info_files_file-Ensures l p h
file_of-Ensures (some l) none h = rejected tt
file_of-Ensures none p h = rejected tt

parse_file-Ensures :
    (e : ElementRef) → IsEncoded e → Ensures IsCode (λ f. f.length_bytes < u64_mod) (parse_file e)
unfolding parse_file
parse_file-Ensures e enc = Ensures-bind (element_as_dictionary-Ensures e enc) λ d all.
    let start : Found = record { length_element = none; path_element = none } in
    file_of-Ensures ((file_loop start d).length_element) ((file_loop start d).path_element)
      (file_loop-path start d tt all)

parse_files-Ensures :
    (es : ListRef)
    → AllElements es
    → Ensures IsCode (All (λ (f : File). f.length_bytes < u64_mod)) (parse_files es)
unfolding parse_files
parse_files-Ensures no_elements h = holds tt
parse_files-Ensures (add_element e es) h =
    Ensures-bind (parse_file-Ensures e h.0)
      λ f fits. Ensures-bind (parse_files-Ensures es h.1) λ fs all. holds (fits, all)

place_files-Ensures :
    (m : TorrentMetainfo) (fs : List File)
    → IsSound m
    → All (λ (f : File). f.length_bytes < u64_mod) fs
    → Ensures IsCode IsSound (place_files m fs)
place_files-Ensures m [] h all = rejected tt
place_files-Ensures m (f ∷ fs) h all =
    holds (record { hashes = h.hashes; piece_fits = h.piece_fits; sized = (omega arith, all) })

pub parse_info_files-Ensures :
    (m : TorrentMetainfo) (e : ElementRef)
    → IsSound m
    → IsEncoded e
    → Ensures IsCode IsSound (parse_info_files m e)
unfolding parse_info_files
parse_info_files-Ensures m e h enc =
    Ensures-if (is_placed m.length_or_files) (λ _. rejected tt)
      (λ _. Ensures-bind (element_as_list-Ensures e enc) λ es all.
        Ensures-bind (parse_files-Ensures es all) λ fs sized. place_files-Ensures m fs h sized)
