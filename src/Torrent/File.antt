-- ===== src/Torrent/File.antt =====
-- The files of a torrent, its info dictionary, and ParseTorrentFileContent.
use bittorrent_client.Base.{
  ℕ, zero, suc, Bool, true, false, ◌||◌, ◌&&◌, Option, none, some, List, [], ◌∷◌, ◌++◌, Result, ok,
  err, ◌>>=◌, ◌==◌, ltb, if◌then◌else◌, length, bytes_eq,
}
use bittorrent_client.Bencode.Errors.{
  empty_multi_file_name, missing_multi_file_property, empty_multi_file,
  ambiguous_multi_or_single_torrent, invalid_invariant, missing_info_property,
}
use bittorrent_client.Bencode.Elements.{
  ElementPosition, ElementRef, ListRef, DictionaryRef, no_elements, add_element, no_entries,
  add_entry, as_string,
}
use bittorrent_client.Bencode.Parser.{parse_dictionary_only}
use bittorrent_client.Torrent.Values.{
  ContentError, invalid, null_pointer, code_result, or_fail, element_as_string, element_as_integer,
  element_as_list, element_as_dictionary, parse_as_uint64,
}
use bittorrent_client.Torrent.Keys.{KeyParser, invoke_all}
use bittorrent_client.Torrent.Metainfo.{
  File, several_files, TorrentMetainfo, empty_metainfo, Setter, is_placed, parse_announce,
  parse_announce_list, parse_info_name, parse_info_piece_length, parse_info_pieces,
  parse_info_length,
}

-- JoinUTF8PartsToString; `none` where a part is no string, and the program reads a null pointer.
unfoldable pub join_parts : ListRef → Option (List ℕ)
unfolding as_string
join_parts no_elements = some []
join_parts (add_element e no_elements) = elim (as_string e) [ some v ↦ some v.bytes | none ↦ none ]
join_parts (add_element e (add_element e' es)) =
    let rest = join_parts (add_element e' es) in
    elim (as_string e) [
      | some v ↦ elim rest [ some path ↦ some (v.bytes ++ b'/' ∷ path) | none ↦ none ]
      | none ↦ none
    ]

-- The loop of ParseInfo_FilesFile over the parts of a path. The sum it makes is only a capacity.
unfoldable pub check_parts : ListRef → Result ContentError (Unit {0})
unfolding element_as_string
check_parts no_elements = ok tt
check_parts (add_element part parts) = element_as_string part >>= λ name.
    let rest = check_parts parts in
    if name.size == 0 then err (invalid empty_multi_file_name) else rest

unfoldable pub parse_info_files_file : ElementRef → ElementRef → Result ContentError File
unfolding element_as_integer element_as_list parse_as_uint64 check_parts join_parts
parse_info_files_file length_ path = element_as_integer length_ >>= λ n.
    element_as_list path >>= λ path_parts. parse_as_uint64 n >>= λ length_bytes.
    check_parts path_parts >>= λ _. or_fail (join_parts path_parts) null_pointer >>= λ joined.
    ok (record { length_bytes = length_bytes; path_utf8 = joined })

abbrev pub key_length : List ℕ
key_length = b'l' ∷ b'e' ∷ b'n' ∷ b'g' ∷ b't' ∷ b'h' ∷ []

abbrev pub key_path : List ℕ
key_path = b'p' ∷ b'a' ∷ b't' ∷ b'h' ∷ []

-- `length` and `path` of the loop in parse_file; null is none.
pub record Found : Type 0 where
  pub length_element : Option ElementRef
  pub path_element : Option ElementRef

abbrev pub is_null : Option ElementRef → Bool
is_null none = true
is_null (some e) = false

unfoldable pub file_step : Found → List ℕ → ElementRef → Found
file_step f name e =
    if bytes_eq name key_length && is_null f.length_element
    then record f { length_element = some e }
    else (if bytes_eq name key_path && is_null f.path_element
        then record f { path_element = some e }
        else f)

unfoldable pub file_loop : Found → DictionaryRef → Found
unfolding file_step
file_loop f no_entries = f
file_loop f (add_entry name e d) = file_loop (file_step f name.bytes e) d

abbrev pub file_of : Option ElementRef → Option ElementRef → Result ContentError File
file_of (some l) (some p) = parse_info_files_file l p
file_of _ _ = err (invalid missing_multi_file_property)

-- The lambda `parse_file` of ParseInfo_Files.
unfoldable pub parse_file : ElementRef → Result ContentError File
unfolding element_as_dictionary file_loop parse_info_files_file
parse_file e = element_as_dictionary e >>= λ data_.
    let found = file_loop (record { length_element = none; path_element = none }) data_ in
    file_of found.length_element found.path_element

unfoldable pub parse_files : ListRef → Result ContentError (List File)
unfolding parse_file
parse_files no_elements = ok []
parse_files (add_element e es) =
    parse_file e >>= λ file. parse_files es >>= λ files. ok (file ∷ files)

abbrev pub place_files : TorrentMetainfo → List File → Result ContentError TorrentMetainfo
place_files m [] = err (invalid empty_multi_file)
place_files m (f ∷ fs) = ok (record m { length_or_files = several_files (f ∷ fs) })

unfoldable pub parse_info_files : Setter
unfolding element_as_list parse_files
parse_info_files m files =
    if is_placed m.length_or_files
    then err (invalid ambiguous_multi_or_single_torrent)
    else (element_as_list files >>= λ list. parse_files list >>= λ parsed. place_files m parsed)

abbrev untracked : List ℕ → Setter → KeyParser TorrentMetainfo
untracked key parse = record { key = key; parse = parse; parsed = false; tracked = none }

-- A parser whose `position_` points to a position that is not set yet.
abbrev tracking : List ℕ → Setter → KeyParser TorrentMetainfo
tracking key parse = record {
  key = key;
  parse = parse;
  parsed = false;
  tracked = some (record { start = 0; end = 0 });
}

unfoldable pub info_parsers : List (KeyParser TorrentMetainfo)
unfolding parse_info_name parse_info_piece_length parse_info_pieces parse_info_length
    parse_info_files
info_parsers =
    untracked (b'n' ∷ b'a' ∷ b'm' ∷ b'e' ∷ []) parse_info_name
    ∷ untracked
        (b'p' ∷ b'i' ∷ b'e' ∷ b'c' ∷ b'e' ∷ b' ' ∷ b'l' ∷ b'e' ∷ b'n' ∷ b'g' ∷ b't' ∷ b'h' ∷ [])
        parse_info_piece_length
    ∷ untracked (b'p' ∷ b'i' ∷ b'e' ∷ b'c' ∷ b'e' ∷ b's' ∷ []) parse_info_pieces
    ∷ untracked key_length parse_info_length
    ∷ untracked (b'f' ∷ b'i' ∷ b'l' ∷ b'e' ∷ b's' ∷ []) parse_info_files
    ∷ []

-- The condition at the end of ParseInfo.
unfoldable pub is_complete : TorrentMetainfo → Bool
is_complete m =
    ltb 0 (length m.tracker_url_utf8)
    && (ltb 0 m.piece_length_bytes && (ltb 0 (length m.pieces_sha1) && is_placed m.length_or_files))

unfoldable pub parse_info : Setter
unfolding element_as_dictionary info_parsers invoke_all is_complete
parse_info m info = element_as_dictionary info >>= λ data_.
    invoke_all info_parsers m data_ >>= λ (ps, m').
    if is_complete m' then ok m' else err (invalid invalid_invariant)

abbrev pub key_announce : List ℕ
key_announce = b'a' ∷ b'n' ∷ b'n' ∷ b'o' ∷ b'u' ∷ b'n' ∷ b'c' ∷ b'e' ∷ []

abbrev pub key_info : List ℕ
key_info = b'i' ∷ b'n' ∷ b'f' ∷ b'o' ∷ []

abbrev pub key_announce_list : List ℕ
key_announce_list = key_announce ++ b'-' ∷ b'l' ∷ b'i' ∷ b's' ∷ b't' ∷ []

unfoldable pub file_parsers : List (KeyParser TorrentMetainfo)
unfolding parse_announce parse_info parse_announce_list
file_parsers =
    tracking key_announce parse_announce
    ∷ tracking key_info parse_info
    ∷ untracked key_announce_list parse_announce_list
    ∷ []

pub record TorrentFileInfo : Type 0 where
  pub metainfo : TorrentMetainfo
  pub info_position : ElementPosition

-- What the n-th parser of the table tracked: a local of ParseTorrentFileContent.
unfoldable pub tracked_at : ℕ → List (KeyParser TorrentMetainfo) → ElementPosition
tracked_at n [] = record { start = 0; end = 0 }
tracked_at zero (p ∷ ps) = elim p.tracked [ some q ↦ q | none ↦ record { start = 0; end = 0 } ]
tracked_at (suc n) (p ∷ ps) = tracked_at n ps

-- ParseTorrentFileContent after its loop.
unfoldable pub finish_content :
    List (KeyParser TorrentMetainfo) × TorrentMetainfo → Result ContentError TorrentFileInfo
unfolding tracked_at
finish_content (ps, m) =
    if (tracked_at 0 ps).end == 0 || (tracked_at 1 ps).end == 0
    then err (invalid missing_info_property)
    else ok (record { metainfo = m; info_position = tracked_at 1 ps })

unfoldable pub parse_torrent_file_content : List ℕ → Result ContentError TorrentFileInfo
unfolding parse_dictionary_only file_parsers invoke_all empty_metainfo finish_content
parse_torrent_file_content content = code_result (parse_dictionary_only content) >>= λ data_.
    invoke_all file_parsers empty_metainfo data_ >>= finish_content
