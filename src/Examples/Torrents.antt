-- ===== src/Examples/Torrents.antt =====
-- The theorems on torrents and on the tracker's answers, at small ones.
use bittorrent_client.Base.{ℕ, ◌≡◌, refl, List, [], ◌∷◌, ok, err, some, length, All, bytes_eq}
use bittorrent_client.Bencode.Errors.{missing_dictionary_start}
use bittorrent_client.Bencode.Elements.{ElementRef, DictionaryRef, position}
use bittorrent_client.Bencode.Length.{parse_length, is_digit}
use bittorrent_client.Bencode.Grammar.{Encodes}
use bittorrent_client.Bencode.Parser.{parse_dictionary_only}
use bittorrent_client.Torrent.Values.{IsCode, invalid}
use bittorrent_client.Torrent.Keys.{invoke_parser_optional_key}
use bittorrent_client.Torrent.Metainfo.{single_length}
use bittorrent_client.Torrent.File.{TorrentFileInfo, parse_torrent_file_content, key_info}
use bittorrent_client.Torrent.Invoke.{first_value}
use bittorrent_client.Torrent.Content.{slice}
use bittorrent_client.Torrent.Promise.{
  IsTorrent, parse_torrent_file_content-valid, parse_torrent_file_content-info_slice,
  parse_torrent_file_content-total,
}
use bittorrent_client.Tracker.Response.{
  TrackerResponse, on_success, peers_of, parse_tracker_compact_response_content,
}
use bittorrent_client.Tracker.Promise.{
  peer_bytes, IsPacked, peers_of-bytes, IsSoundResponse, IsOf,
  parse_tracker_compact_response_content-valid, parse_tracker_compact_response_content-total,
}
use bittorrent_client.Examples.{codes}

abbrev torrent_text : List ℕ
torrent_text =
    codes "d8:announce1:t4:infod6:lengthi5e12:piece lengthi4e6:pieces20:abcdefghijklmnopqrstee"

abbrev torrent : TorrentFileInfo
torrent = record {
  metainfo = record {
    suggested_name_utf8 = [];
    piece_length_bytes = 4;
    pieces_sha1 = codes "abcdefghijklmnopqrst";
    length_or_files = single_length 5;
    tracker_url_utf8 = codes "t";
    multi_trackers = [];
  };
  info_position = record { start = 20; end = 82 };
}

torrent_parsed : parse_torrent_file_content torrent_text ≡ ok torrent
unfolding parse_torrent_file_content parse_length is_digit bytes_eq position
    invoke_parser_optional_key
torrent_parsed = refl

parse_torrent_file_content-valid_example : IsTorrent torrent.metainfo
parse_torrent_file_content-valid_example =
    parse_torrent_file_content-valid torrent_text torrent torrent_parsed

parse_torrent_file_content-info_slice_example :
    (d : DictionaryRef) × (e : ElementRef) × (parse_dictionary_only torrent_text ≡ ok d)
    × (first_value key_info d ≡ some e)
    × (position e ≡ torrent.info_position)
    × Encodes e 20 (slice torrent.info_position torrent_text)
parse_torrent_file_content-info_slice_example =
    parse_torrent_file_content-info_slice torrent_text torrent torrent_parsed

no_dictionary : parse_torrent_file_content (codes "x") ≡ err (invalid missing_dictionary_start)
unfolding parse_torrent_file_content
no_dictionary = refl

parse_torrent_file_content-total_example : IsCode (invalid missing_dictionary_start)
parse_torrent_file_content-total_example =
    parse_torrent_file_content-total (codes "x") (invalid missing_dictionary_start) no_dictionary

abbrev answer_text : List ℕ
answer_text = codes "d8:intervali900e5:peers6:abcdefe"

abbrev answer : TrackerResponse
answer = on_success (record {
  rerequest_dt_secs = 900;
  peers = record { ipv4 = codes "abcd"; port = codes "ef" } ∷ [];
})

answer_parsed : parse_tracker_compact_response_content answer_text ≡ ok answer
unfolding parse_tracker_compact_response_content parse_length is_digit bytes_eq position
    invoke_parser_optional_key
answer_parsed = refl

parse_tracker_compact_response_content-valid_example :
    (d : DictionaryRef) × (parse_dictionary_only answer_text ≡ ok d)
    × IsSoundResponse answer
    × IsOf d answer
parse_tracker_compact_response_content-valid_example =
    parse_tracker_compact_response_content-valid answer_text answer answer_parsed

no_answer :
    parse_tracker_compact_response_content (codes "x") ≡ err (invalid missing_dictionary_start)
unfolding parse_tracker_compact_response_content
no_answer = refl

parse_tracker_compact_response_content-total_example : IsCode (invalid missing_dictionary_start)
parse_tracker_compact_response_content-total_example =
    parse_tracker_compact_response_content-total (codes "x") (invalid missing_dictionary_start)
      no_answer

peers_of-bytes_example :
    (peer_bytes (peers_of (codes "abcdefghijkl")) ≡ codes "abcdefghijkl")
    × (length (peers_of (codes "abcdefghijkl")) ≡ 2)
    × All IsPacked (peers_of (codes "abcdefghijkl"))
peers_of-bytes_example = peers_of-bytes 2 (codes "abcdefghijkl") refl
