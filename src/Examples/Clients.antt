-- ===== src/Examples/Clients.antt =====
-- The client of a small torrent, and its tracker.
use bittorrent_client.Base.{
  ℕ, suc, ◌+◌, ◌-◌, ◌*◌, ◌≤◌, ◌<◌, ◌≡◌, ◌↔◌, refl, some, List, [], ◌∷◌, ok, arith, ◌==◌,
  if◌then◌else◌, length, replicate, bytes_eq, All,
}
use bittorrent_client.Bencode.Elements.{position}
use bittorrent_client.Bencode.Length.{parse_length, is_digit}
use bittorrent_client.Torrent.Keys.{invoke_parser_optional_key}
use bittorrent_client.Torrent.Metainfo.{single_length}
use bittorrent_client.Torrent.File.{parse_torrent_file_content}
use bittorrent_client.Tracker.Response.{PeerAddress, parse_tracker_compact_response_content}
use bittorrent_client.Wire.Endian.{word_of, memory_of}
use bittorrent_client.Announce.Exchange.{Network, RequestInfo, resume}
use bittorrent_client.Download.Pieces.{get_piece_size}
use bittorrent_client.Client.Totals.{get_pieces_count, get_piece_size_bytes, get_total_size_bytes}
use bittorrent_client.Client.PeerId.{get_sha1, get_random_peer_id, get_random_peer_id_total}
use bittorrent_client.Client.Make.{TorrentClient, make, pieces_of}
use bittorrent_client.Client.Made.{make-get_piece_size}
use bittorrent_client.Client.Peers.{remove_duplicates}
use bittorrent_client.Client.Distinct.{IsIncreasing}
use bittorrent_client.Client.Members.{IsIn, IsDistinct, IsAddress, remove_duplicates_lem}
use bittorrent_client.Client.Built.{AreBuilt, build_tracker_requests_lem}
use bittorrent_client.Client.Requests.{
  UrlLibrary, TrackerRequest, http_get_request, build_tracker_requests, http_text,
}
use bittorrent_client.Client.Announce.{HttpGet, request_torrent_peers}
use bittorrent_client.Client.Start.{Socket, start, start_lem}
use bittorrent_client.Wire.Handshake.{handshake_bytes}
use bittorrent_client.Wire.Messages.{no_extensions}
use bittorrent_client.Client.Promise.{AreGathered, request_torrent_peers_lem}
use bittorrent_client.Examples.{codes}

abbrev random_seven : ℕ → ℕ × ℕ
random_seven w = (7, suc w)

abbrev digest_ones : List ℕ → List ℕ
digest_ones bytes = replicate 20 1

get_random_peer_id_total_example :
    (r : List ℕ × ℕ) × (get_random_peer_id random_seven 0 ≡ some r) × (length r.0 ≡ 20)
get_random_peer_id_total_example = get_random_peer_id_total random_seven 0

abbrev client_text : List ℕ
client_text =
    codes "d8:announce1:t4:infod6:lengthi3e12:piece lengthi4e6:pieces20:abcdefghijklmnopqrstee"

abbrev client : TorrentClient
client = record {
  metainfo = record {
    suggested_name_utf8 = [];
    piece_length_bytes = 4;
    pieces_sha1 = codes "abcdefghijklmnopqrst";
    length_or_files = single_length 3;
    tracker_url_utf8 = codes "t";
    multi_trackers = [];
  };
  info_hash = replicate 20 1;
  peer_id = 7 ∷ 0 ∷ 0 ∷ 0 ∷ 7 ∷ 0 ∷ 0 ∷ 0 ∷ 7 ∷ 0 ∷ 0 ∷ 0 ∷ 7 ∷ 0 ∷ 0 ∷ 0 ∷ 7 ∷ 0 ∷ 0 ∷ 0 ∷ [];
}

client_made : make random_seven digest_ones (some client_text) 0 ≡ some (ok client, 5)
unfolding make parse_torrent_file_content parse_length is_digit bytes_eq position
    invoke_parser_optional_key get_total_size_bytes get_pieces_count get_piece_size_bytes get_sha1
    memory_of
client_made = refl

make-get_piece_size_example :
    (total : ℕ) × (get_total_size_bytes client.metainfo.length_or_files ≡ some total)
    × (0 < get_pieces_count client.metainfo)
    × (0 < get_piece_size_bytes client.metainfo)
    × (0 < total - get_piece_size_bytes client.metainfo * (get_pieces_count client.metainfo - 1))
    × (total - get_piece_size_bytes client.metainfo * (get_pieces_count client.metainfo - 1)
        ≤ get_piece_size_bytes client.metainfo)
    × (get_piece_size (pieces_of client.metainfo total) 0
        ≡ some (
            if 0 + 1 == get_pieces_count client.metainfo
            then total
              - get_piece_size_bytes client.metainfo * (get_pieces_count client.metainfo - 1)
            else get_piece_size_bytes client.metainfo))
unfolding get_pieces_count
make-get_piece_size_example =
    make-get_piece_size random_seven digest_ones (some client_text) 0 5 client 0 client_made
      (omega arith)

abbrev one_peer : PeerAddress
one_peer = record { ipv4 = codes "abcd"; port = codes "ef" }

abbrev another_peer : PeerAddress
another_peer = record { ipv4 = codes "aaaa"; port = codes "ef" }

abbrev doubled : List PeerAddress
doubled = one_peer ∷ another_peer ∷ one_peer ∷ []

doubled-IsAddress : All IsAddress doubled
doubled-IsAddress =
    let packed : IsAddress one_peer = record {
      ipv4_size = refl;
      port_size = refl;
      ipv4_bytes = (omega arith, (omega arith, (omega arith, (omega arith, tt))));
      port_bytes = (omega arith, (omega arith, tt));
    } in
    (
      packed,
      (
        record {
          ipv4_size = refl;
          port_size = refl;
          ipv4_bytes = (omega arith, (omega arith, (omega arith, (omega arith, tt))));
          port_bytes = (omega arith, (omega arith, tt));
        },
        (packed, tt),
      ),
    )

remove_duplicates_lem_example :
    IsIncreasing (remove_duplicates doubled)
    × IsDistinct (remove_duplicates doubled)
    × ((p : PeerAddress) → IsIn p (remove_duplicates doubled) ↔ IsIn p doubled)
remove_duplicates_lem_example = remove_duplicates_lem doubled doubled-IsAddress

-- Every text is the address of an HTTP tracker at the host "t".
abbrev small_urls : UrlLibrary
small_urls = record {
  Url = List ℕ;
  parse = λ text. some text;
  scheme = λ url. http_text;
  host = λ url. codes "t";
  port = λ url. codes "8080";
  path = λ url. [];
  add_query = λ name value url. url;
  build_query_str = λ url. [];
  to_string = λ n. n ∷ [];
}

abbrev small_info : RequestInfo
small_info = record {
  server_port = 6881;
  pieces_left = 1;
  uploaded_pieces = 0;
  downloaded_pieces = 0;
}

abbrev silent_network : Network ℕ
silent_network = record {
  random = random_seven;
  open_socket = λ w. (ok tt, w);
  async_resolve = λ host port w. (ok tt, w);
  async_send_to = λ bytes w. (ok tt, w);
  async_receive_from = λ size timeout w. (ok [], w);
}

abbrev answering : HttpGet ℕ
answering host uri port w = (ok (codes "d8:intervali900e5:peers12:abcdefabcdefe"), suc w)

peers_given :
    request_torrent_peers silent_network answering answering small_urls client small_info 0
    ≡ some (ok (one_peer ∷ []), 1)
unfolding request_torrent_peers resume parse_tracker_compact_response_content parse_length is_digit
    bytes_eq position invoke_parser_optional_key word_of
peers_given = refl

request_torrent_peers_lem_example :
    AreGathered silent_network answering answering
      (build_tracker_requests small_urls client small_info)
      (one_peer ∷ [])
      0
      1
request_torrent_peers_lem_example =
    request_torrent_peers_lem silent_network answering answering small_urls client small_info
      (one_peer ∷ []) 0 1 peers_given

abbrev built_requests : List TrackerRequest
built_requests =
    http_get_request (record { host = codes "t"; port = 8080; get_uri = codes "/" }) ∷ []

build_tracker_requests_lem_example :
    (build_tracker_requests small_urls client small_info ≡ ok built_requests)
    ↔ AreBuilt small_urls client small_info (codes "t" ∷ []) built_requests
build_tracker_requests_lem_example =
    build_tracker_requests_lem small_urls client small_info built_requests

-- The requests are those that the code makes.
requests_built : AreBuilt small_urls client small_info (codes "t" ∷ []) built_requests
unfolding build_tracker_requests parse_length is_digit bytes_eq
requests_built = (build_tracker_requests_lem small_urls client small_info built_requests).0 refl

abbrev small_socket : Socket ℕ
small_socket = record {
  async_connect = λ address w. (ok tt, suc w);
  async_write = λ bytes w. (ok tt, suc w);
  async_read = λ size w. (ok (handshake_bytes (replicate 20 1) (replicate 20 45)), suc w);
}

start_lem_example :
    start small_socket one_peer (replicate 20 1) (replicate 20 2) 0
    ≡ some (ok (record { peer_id = replicate 20 45; extensions = no_extensions }), 3)
unfolding bytes_eq
start_lem_example =
    start_lem small_socket one_peer (replicate 20 1) (replicate 20 2) (replicate 20 1)
      (replicate 20 45) 0 1 2 3 refl refl refl refl refl refl refl
