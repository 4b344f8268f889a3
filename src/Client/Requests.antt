-- ===== src/Client/Requests.antt =====
-- build_tracker_requests, build_http_request and build_udp_request of
-- src/bittorrent_client/torrent_client.cpp. The library CxxUrl is a parameter.
use bittorrent_client.Base.{
  ℕ, ◌%◌, ◌^◌, ◌||◌, Option, none, some, List, [], ◌∷◌, ◌++◌, Result, ok, err, ltb, ◌==◌,
  if◌then◌else◌, length, bytes_eq,
}
use bittorrent_client.Bencode.Length.{parse_length}
use bittorrent_client.Torrent.Metainfo.{Multitracker}
use bittorrent_client.Announce.Exchange.{Failure, client_todo, RequestInfo, UdpRequest}
use bittorrent_client.Client.Make.{TorrentClient}

-- What the client uses of a `Url`. `parse` gives `none` where the constructor throws, and the members of a
-- parsed address do not throw. `to_string` is std::to_string.
pub record UrlLibrary : Type 1 where
  pub Url : Type 0
  pub parse : List ℕ → Option Url
  pub scheme : Url → List ℕ
  pub host : Url → List ℕ
  pub port : Url → List ℕ
  pub path : Url → List ℕ
  pub add_query : List ℕ → List ℕ → Url → Url
  pub build_query_str : Url → List ℕ
  pub to_string : ℕ → List ℕ

pub record HttpGetRequest : Type 0 where
  pub host : List ℕ
  pub port : ℕ
  pub get_uri : List ℕ

-- Tracker::Request.
pub data TrackerRequest : Type 0 where
  no_request : TrackerRequest
  http_get_request : HttpGetRequest → TrackerRequest
  https_get_request : HttpGetRequest → TrackerRequest
  udp_request : UdpRequest → TrackerRequest

-- The texts "http", "https", "udp", and the names of the query.
abbrev pub http_text : List ℕ
http_text = 104 ∷ 116 ∷ 116 ∷ 112 ∷ []

abbrev pub https_text : List ℕ
https_text = 104 ∷ 116 ∷ 116 ∷ 112 ∷ 115 ∷ []

abbrev pub udp_text : List ℕ
udp_text = 117 ∷ 100 ∷ 112 ∷ []

abbrev pub info_hash_text : List ℕ
info_hash_text = 105 ∷ 110 ∷ 102 ∷ 111 ∷ 95 ∷ 104 ∷ 97 ∷ 115 ∷ 104 ∷ []

abbrev pub peer_id_text : List ℕ
peer_id_text = 112 ∷ 101 ∷ 101 ∷ 114 ∷ 95 ∷ 105 ∷ 100 ∷ []

abbrev pub port_text : List ℕ
port_text = 112 ∷ 111 ∷ 114 ∷ 116 ∷ []

abbrev pub uploaded_text : List ℕ
uploaded_text = 117 ∷ 112 ∷ 108 ∷ 111 ∷ 97 ∷ 100 ∷ 101 ∷ 100 ∷ []

abbrev pub downloaded_text : List ℕ
downloaded_text = 100 ∷ 111 ∷ 119 ∷ 110 ∷ 108 ∷ 111 ∷ 97 ∷ 100 ∷ 101 ∷ 100 ∷ []

abbrev pub left_text : List ℕ
left_text = 108 ∷ 101 ∷ 102 ∷ 116 ∷ []

abbrev pub compact_text : List ℕ
compact_text = 99 ∷ 111 ∷ 109 ∷ 112 ∷ 97 ∷ 99 ∷ 116 ∷ []

-- `static_cast<std::uint16_t>` of a parsed port.
abbrev pub port_of : Option ℕ → Option ℕ
port_of (some v) = some (v % 2 ^ 16)
port_of none = none

-- A path that is empty is "/".
abbrev pub or_slash : List ℕ → List ℕ
or_slash [] = 47 ∷ []
or_slash (c ∷ path) = c ∷ path

module _ (lib : UrlLibrary) (client : TorrentClient) (info : RequestInfo) where
  -- The address with the query added.
  abbrev pub with_query : lib.Url → lib.Url
  with_query url = lib.add_query compact_text (lib.to_string 1) (
      lib.add_query left_text (lib.to_string info.pieces_left) (
        lib.add_query downloaded_text (lib.to_string info.downloaded_pieces) (
          lib.add_query uploaded_text (lib.to_string info.uploaded_pieces) (
            lib.add_query port_text (lib.to_string info.server_port) (
              lib.add_query peer_id_text client.peer_id
                (lib.add_query info_hash_text client.info_hash url))))))

  abbrev pub http_body :
      (HttpGetRequest → TrackerRequest) → lib.Url → Option ℕ → Result Failure TrackerRequest
  http_body body url none = err client_todo
  http_body body url (some port) = ok (
      body (record {
        host = lib.host url;
        port = port;
        get_uri = or_slash (lib.path url) ++ lib.build_query_str url;
      }))

  -- build_http_request, of HTTP_GetRequest or HTTPS_GetRequest.
  unfoldable pub build_http_request :
      (HttpGetRequest → TrackerRequest) → lib.Url → ℕ → Result Failure TrackerRequest
  unfolding parse_length
  build_http_request body url default_port =
      let asked : lib.Url = with_query url in
      if length (lib.host url) == 0
      then err client_todo
      else http_body body asked (
          if length (lib.port asked) == 0
          then some default_port
          else port_of (parse_length (lib.port asked)))

  abbrev pub udp_body : lib.Url → Option ℕ → Result Failure TrackerRequest
  udp_body url none = err client_todo
  udp_body url (some port) = ok (
      udp_request (record {
        info = info;
        host = lib.host url;
        port = port;
        info_hash = client.info_hash;
        peer_id = client.peer_id;
      }))

  unfoldable pub build_udp_request : lib.Url → Result Failure TrackerRequest
  unfolding parse_length
  build_udp_request url =
      if (length (lib.host url) == 0) || (length (lib.port url) == 0)
      then err client_todo
      else udp_body url (port_of (parse_length (lib.port url)))

  abbrev pub build_parsed : Option lib.Url → Result Failure TrackerRequest
  build_parsed none = err client_todo
  build_parsed (some url) =
      if bytes_eq (lib.scheme url) http_text
      then build_http_request http_get_request url 80
      else (if bytes_eq (lib.scheme url) https_text
          then build_http_request https_get_request url 443
          else (if bytes_eq (lib.scheme url) udp_text
              then build_udp_request url
              else err client_todo))

  -- build_from_one.
  unfoldable pub build_from_one : List ℕ → Result Failure TrackerRequest
  unfolding bytes_eq build_http_request build_udp_request
  build_from_one url_utf8 = build_parsed (lib.parse url_utf8)

  -- The loop over `multi_trackers_`: the requests that can be built.
  unfoldable pub build_all : List Multitracker → List TrackerRequest
  unfolding build_from_one
  build_all [] = []
  build_all (tracker ∷ trackers) =
      let rest = build_all trackers in
      elim (build_from_one tracker.url_utf8) [ ok data_ ↦ data_ ∷ rest | err e ↦ rest ]

  abbrev pub only : Result Failure TrackerRequest → Result Failure (List TrackerRequest)
  only (ok main) = ok (main ∷ [])
  only (err e) = err e

  unfoldable pub build_tracker_requests : Result Failure (List TrackerRequest)
  unfolding build_from_one build_all
  build_tracker_requests =
      if length client.metainfo.multi_trackers == 0
      then only (build_from_one client.metainfo.tracker_url_utf8)
      else (if ltb 0 (length (build_all client.metainfo.multi_trackers))
          then ok (build_all client.metainfo.multi_trackers)
          else err client_todo)
