-- ===== src/Torrent/Promise.antt =====
-- What ParseTorrentFileContent promises to its caller.
use bittorrent_client.Base.{
  ℕ, ◌%◌, ◌<◌, ◌≡◌, true, List, ok, err, Ensures-ok, Ensures-err, length, arith, some, subst,
}
use bittorrent_client.Bencode.Elements.{ElementPosition, ElementRef, DictionaryRef, position}
use bittorrent_client.Bencode.Length.{u64_mod}
use bittorrent_client.Bencode.Grammar.{Encodes}
use bittorrent_client.Bencode.Parser.{parse_dictionary_only}
use bittorrent_client.Torrent.Values.{ContentError, IsCode}
use bittorrent_client.Torrent.Metainfo.{TorrentMetainfo, is_placed}
use bittorrent_client.Torrent.File.{
  is_complete, key_info, TorrentFileInfo, parse_torrent_file_content,
}
use bittorrent_client.Torrent.Invoke.{first_value}
use bittorrent_client.Torrent.Valid.{IsSized}
use bittorrent_client.Torrent.Content.{slice, first_value-slice, parse_torrent_file_content-Ensures}

-- What a client may rely on.
pub record IsTorrent (m : TorrentMetainfo) : Type 0 where
  pub has_tracker : 0 < length m.tracker_url_utf8
  pub has_piece_length : 0 < m.piece_length_bytes
  pub piece_length_fits : m.piece_length_bytes < u64_mod
  pub has_pieces : 0 < length m.pieces_sha1
  pub whole_hashes : length m.pieces_sha1 % 20 ≡ 0
  pub has_content : is_placed m.length_or_files ≡ true
  pub content_fits : IsSized m.length_or_files

-- A torrent that is returned has a tracker, a piece length above 0 and below 2 ^ 64, at least one
-- piece hash and only whole ones, and a length or at least one file, each length below 2 ^ 64.
pub parse_torrent_file_content-valid :
    (content : List ℕ) (info : TorrentFileInfo)
    → parse_torrent_file_content content ≡ ok info
    → IsTorrent info.metainfo
unfolding is_complete
parse_torrent_file_content-valid content info h =
    let (d, _, _, (sound, complete, _)) =
      Ensures-ok (parse_torrent_file_content-Ensures content) h in
    record {
      has_tracker = ground arith;
      has_piece_length = ground arith;
      piece_length_fits = sound.piece_fits;
      has_pieces = ground arith;
      whole_hashes = sound.hashes;
      has_content = ground arith;
      content_fits = sound.sized;
    }

-- When a torrent is returned before any address of the parser overflows: its position is that of the first value of "info" in the dictionary,
-- and the bytes of the content there, which are hashed to the info hash, are exactly the encoding of
-- that value.
pub parse_torrent_file_content-info_slice :
    (content : List ℕ) (info : TorrentFileInfo)
    → parse_torrent_file_content content ≡ ok info
    → (d : DictionaryRef) × (e : ElementRef) × (parse_dictionary_only content ≡ ok d)
      × (first_value key_info d ≡ some e)
      × (position e ≡ info.info_position)
      × Encodes e info.info_position.start (slice info.info_position content)
parse_torrent_file_content-info_slice content info h =
    let (d, parsed, begins, (_, _, (e, found, same))) =
      Ensures-ok (parse_torrent_file_content-Ensures content) h in
    (
      d,
      e,
      parsed,
      found,
      same,
      subst (λ (p : ElementPosition). Encodes e p.start (slice p content)) same
          (first_value-slice content key_info d e begins found),
    )

-- Where no torrent is returned, an error code is, or the parser has met the length of a string that is at least
-- 2 ^ 63, where the sum with an address may overflow and the model ends: no assertion of the parser fails, its
-- fuel suffices and no null pointer is read, whatever the content.
pub parse_torrent_file_content-total :
    (content : List ℕ) (x : ContentError) → parse_torrent_file_content content ≡ err x → IsCode x
parse_torrent_file_content-total content x h =
    Ensures-err (parse_torrent_file_content-Ensures content) h
