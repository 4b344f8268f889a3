-- ===== src/Torrent/Metainfo.antt =====
-- TorrentMetainfo of src/bencoding/include/bencoding/be_torrent_file_parse.h, and the parsers of its
-- single values.
use bittorrent_client.Base.{
  ℕ, suc, ◌%◌, Bool, true, false, ◌||◌, not, none, some, List, [], ◌∷◌, ◌++◌, Result, ok, err,
  ◌>>=◌, ◌==◌, if◌then◌else◌,
}
use bittorrent_client.Bencode.Errors.{
  empty_announce, invalid_info_pieces_length_20, ambiguous_multi_or_single_torrent,
}
use bittorrent_client.Bencode.Elements.{
  ElementRef, ListRef, no_elements, add_element, as_string, as_list,
}
use bittorrent_client.Torrent.Values.{
  ContentError, invalid, element_as_string, element_as_integer, element_as_list, parse_as_uint64,
}

pub record File : Type 0 where
  pub length_bytes : ℕ
  pub path_utf8 : List ℕ

pub data LengthOrFiles : Type 0 where
  neither : LengthOrFiles
  single_length : ℕ → LengthOrFiles
  several_files : List File → LengthOrFiles

pub record Multitracker : Type 0 where
  pub url_utf8 : List ℕ
  pub tier : ℕ

-- The members of TorrentMetainfo, with those of its `info_`.
pub record TorrentMetainfo : Type 0 where
  pub suggested_name_utf8 : List ℕ
  pub piece_length_bytes : ℕ
  pub pieces_sha1 : List ℕ
  pub length_or_files : LengthOrFiles
  pub tracker_url_utf8 : List ℕ
  pub multi_trackers : List Multitracker

unfoldable pub empty_metainfo : TorrentMetainfo
empty_metainfo = record {
  suggested_name_utf8 = [];
  piece_length_bytes = 0;
  pieces_sha1 = [];
  length_or_files = neither;
  tracker_url_utf8 = [];
  multi_trackers = [];
}

-- What each value parser does to the metainfo.
abbrev pub Setter : Type 0
Setter = TorrentMetainfo → ElementRef → Result ContentError TorrentMetainfo

unfoldable pub parse_announce : Setter
unfolding element_as_string
parse_announce m announce = element_as_string announce >>= λ str.
    if str.size == 0
    then err (invalid empty_announce)
    else ok (record m { tracker_url_utf8 = str.bytes })

-- The trackers of one tier.
unfoldable pub tier_trackers : ℕ → ListRef → List Multitracker
unfolding as_string
tier_trackers i no_elements = []
tier_trackers i (add_element url urls) =
    let rest = tier_trackers i urls in
    elim (as_string url) [
      | some str ↦ if str.size == 0 then rest else record { url_utf8 = str.bytes; tier = i } ∷ rest
      | none ↦ rest
    ]

-- The tiers from number `i` on. An element that is no list has a number and no trackers.
unfoldable pub tiers : ℕ → ListRef → List Multitracker
unfolding tier_trackers as_list
tiers i no_elements = []
tiers i (add_element e es) =
    let rest = tiers (suc i) es in
    elim (as_list e) [ some urls ↦ tier_trackers i urls ++ rest | none ↦ rest ]

unfoldable pub parse_announce_list : Setter
unfolding element_as_list tiers
parse_announce_list m announce_list = element_as_list announce_list >>= λ list.
    ok (record m { multi_trackers = m.multi_trackers ++ tiers 0 list })

unfoldable pub parse_info_name : Setter
unfolding element_as_string
parse_info_name m name = element_as_string name >>= λ str.
    if str.size == 0 then ok m else ok (record m { suggested_name_utf8 = str.bytes })

unfoldable pub parse_info_piece_length : Setter
unfolding element_as_integer parse_as_uint64
parse_info_piece_length m piece_length = element_as_integer piece_length >>= λ n.
    parse_as_uint64 n >>= λ length_bytes. ok (record m { piece_length_bytes = length_bytes })

unfoldable pub parse_info_pieces : Setter
unfolding element_as_string
parse_info_pieces m pieces = element_as_string pieces >>= λ hashes.
    if hashes.size == 0 || not (hashes.size % 20 == 0)
    then err (invalid invalid_info_pieces_length_20)
    else ok (record m { pieces_sha1 = hashes.bytes })

-- `length_or_files_.index() != 0`.
abbrev pub is_placed : LengthOrFiles → Bool
is_placed neither = false
is_placed (single_length n) = true
is_placed (several_files fs) = true

unfoldable pub parse_info_length : Setter
unfolding element_as_integer parse_as_uint64
parse_info_length m length_ =
    if is_placed m.length_or_files
    then err (invalid ambiguous_multi_or_single_torrent)
    else (element_as_integer length_ >>= λ n. parse_as_uint64 n >>= λ length_bytes.
        ok (record m { length_or_files = single_length length_bytes }))
