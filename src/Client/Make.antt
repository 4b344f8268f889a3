-- ===== src/Client/Make.antt =====
-- TorrentClient::make of src/bittorrent_client/torrent_client.cpp. The file's bytes, the digest and the random
-- device are parameters.
use bittorrent_client.Base.{
  ℕ, ◌-◌, ◌*◌, ◌%◌, ◌^◌, Bool, ◌&&◌, Option, none, some, List, [], Result, ok, err, if◌then◌else◌,
  length, take, drop, ltb, leb,
}
use bittorrent_client.Torrent.Values.{ContentError}
use bittorrent_client.Torrent.Metainfo.{TorrentMetainfo}
use bittorrent_client.Torrent.File.{TorrentFileInfo, parse_torrent_file_content}
use bittorrent_client.Client.Totals.{get_pieces_count, get_piece_size_bytes, get_total_size_bytes}
use bittorrent_client.Download.Pieces.{PiecesToDownload}
use bittorrent_client.Client.PeerId.{get_sha1, get_random_peer_id}

pub record TorrentClient : Type 0 where
  pub metainfo : TorrentMetainfo
  pub info_hash : List ℕ
  pub peer_id : List ℕ

-- ClientErrorc::TODO, and the errors of ParseTorrentFileContent.
pub data MakeError : Type 0 where
  no_file : MakeError
  content : ContentError → MakeError

-- AsStringView of src/small_utils/include/small_utils/utils_read_file.h.
unfoldable pub as_string_view : List ℕ → ℕ → ℕ → Option (List ℕ)
as_string_view buffer start end =
    if leb start end && leb end (length buffer)
    then some (take (end - start) (drop start buffer))
    else none

-- The assertions on the pieces and the sizes.
unfoldable pub sizes_make_sense : ℕ → ℕ → ℕ → Bool
sizes_make_sense pieces_count piece_size total_size =
    let size_except_last_piece : ℕ = piece_size * (pieces_count - 1) % 2 ^ 64 in
    ltb 0 pieces_count
    && (ltb 0 piece_size
        && (ltb size_except_last_piece total_size
            && leb (total_size - size_except_last_piece) piece_size))

abbrev pub checked : TorrentClient → Option ℕ → Option (Result MakeError TorrentClient)
checked client none = none
checked client (some total_size) =
    if sizes_make_sense (get_pieces_count client.metainfo) (get_piece_size_bytes client.metainfo)
      total_size
    then some (ok client)
    else none

abbrev pub with_state :
    {W : Type 0}
    → Option (Result MakeError TorrentClient)
    → W
    → Option (Result MakeError TorrentClient × W)
with_state (some r) w = some (r, w)
with_state none w = none

module _ {W : Type 0} (random : W → ℕ × W) (digest : List ℕ → List ℕ) where
  -- The client of a parsed file: the view of `info`, and the peer id with the next state.
  abbrev pub make_client :
      TorrentMetainfo
      → Option (List ℕ)
      → Option (List ℕ × W)
      → Option (Result MakeError TorrentClient × W)
  make_client m (some info) (some (peer_id, w)) =
      with_state
        (checked (record { metainfo = m; info_hash = get_sha1 digest info; peer_id = peer_id })
          (get_total_size_bytes m.length_or_files))
        w
  make_client m _ _ = none

  abbrev pub make_parsed :
      List ℕ → Result ContentError TorrentFileInfo → W → Option (Result MakeError TorrentClient × W)
  make_parsed buffer (err e) w = some (err (content e), w)
  make_parsed buffer (ok torrent) w =
      make_client torrent.metainfo
        (as_string_view buffer torrent.info_position.start torrent.info_position.end)
        (get_random_peer_id random w)

  -- `none` for the buffer stands for a file that cannot be read.
  unfoldable pub make : Option (List ℕ) → W → Option (Result MakeError TorrentClient × W)
  unfolding parse_torrent_file_content as_string_view sizes_make_sense get_random_peer_id
  make none w = some (err no_file, w)
  make (some buffer) w = make_parsed buffer (parse_torrent_file_content buffer) w

-- The PiecesToDownload that `main` sets up: src/bittorrent_client/main.cpp.
unfoldable pub pieces_of : TorrentMetainfo → ℕ → PiecesToDownload
pieces_of m total_size = record {
  pieces = [];
  to_retry = [];
  pieces_count = get_pieces_count m;
  piece_size = get_piece_size_bytes m;
  total_size = total_size;
  next_piece_index = 0;
  downloaded_pieces_count = 0;
}
