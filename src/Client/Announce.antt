-- ===== src/Client/Announce.antt =====
-- TorrentClient::request_torrent_peers of src/bittorrent_client/torrent_client.cpp, and HTTP_TrackerAnnounce and
-- HTTPS_TrackerAnnounce of src/bittorrent_client/tracker_requests.cpp. HTTP_GET and HTTPS_GET_NoVerification
-- are parameters.
use bittorrent_client.Base.{
  ℕ, Option, none, some, List, [], ◌∷◌, ◌++◌, Result, ok, err, ltb, if◌then◌else◌, length,
}
use bittorrent_client.Torrent.Values.{ContentError}
use bittorrent_client.Tracker.Response.{
  PeerAddress, TrackerResponse, parse_tracker_compact_response_content,
}
use bittorrent_client.Announce.Exchange.{
  Failure, client_todo, Network, RequestInfo, udp_tracker_announce, Coroutine, co_await, co_fail,
  resume, ◌>>=◌,
}
use bittorrent_client.Client.Make.{TorrentClient}
use bittorrent_client.Client.Peers.{try_get_only_peers, remove_duplicates}
use bittorrent_client.Client.Requests.{
  UrlLibrary, HttpGetRequest, TrackerRequest, no_request, http_get_request, https_get_request,
  udp_request, build_tracker_requests,
}

-- The body of the answer to a GET of a host, a path and a port.
abbrev pub HttpGet : Type 0 → Type 0
HttpGet W = List ℕ → List ℕ → ℕ → W → Result Failure (List ℕ) × W

-- The error of ParseTrackerCompactResponseContent keeps no more than that it is one.
abbrev pub from_content : Result ContentError TrackerResponse → Result Failure TrackerResponse
from_content (ok r) = ok r
from_content (err e) = err client_todo

module _ {W : Type 0} (get : HttpGet W) where
  -- HTTP_TrackerAnnounce, and HTTPS_TrackerAnnounce with the other GET.
  unfoldable pub http_tracker_announce : HttpGetRequest → Coroutine W TrackerResponse
  unfolding parse_tracker_compact_response_content resume
  http_tracker_announce request =
      co_await (get request.host request.get_uri request.port) >>= λ body w.
      some (from_content (parse_tracker_compact_response_content body), w)

module _ {W : Type 0} (net : Network W) (http_get https_get : HttpGet W) where
  -- The peers of a response.
  abbrev pub only_peers : TrackerResponse → Coroutine W (List PeerAddress)
  only_peers response w = some (try_get_only_peers response, w)

  unfoldable pub fetch_one : TrackerRequest → Coroutine W (List PeerAddress)
  unfolding http_tracker_announce udp_tracker_announce try_get_only_peers resume
  fetch_one (http_get_request request) = http_tracker_announce http_get request >>= only_peers
  fetch_one (https_get_request request) = http_tracker_announce https_get request >>= only_peers
  fetch_one (udp_request request) = udp_tracker_announce net request >>= only_peers
  fetch_one no_request = co_fail client_todo

  -- try_add_peers.
  abbrev pub try_add_peers : List PeerAddress → Result Failure (List PeerAddress) → List PeerAddress
  try_add_peers all_peers (ok new_peers) = all_peers ++ new_peers
  try_add_peers all_peers (err e) = all_peers

  -- The loop over the requests; what follows it takes the peers of all.
  unfoldable pub fetch_all :
      List TrackerRequest → List PeerAddress → W → Option (List PeerAddress × W)
  unfolding fetch_one
  fetch_all [] all_peers w = some (all_peers, w)
  fetch_all (request ∷ requests) all_peers w = elim (fetch_one request w) [
    | none ↦ none
    | some got ↦ fetch_all requests (try_add_peers all_peers got.0) got.1
  ]

  abbrev pub finish_peers :
      Option (List PeerAddress × W) → Option (Result Failure (List PeerAddress) × W)
  finish_peers none = none
  finish_peers (some (all_peers, w)) =
      if ltb 0 (length (remove_duplicates all_peers))
      then some (ok (remove_duplicates all_peers), w)
      else some (err client_todo, w)

  abbrev pub request_from : Result Failure (List TrackerRequest) → Coroutine W (List PeerAddress)
  request_from (err e) w = some (err e, w)
  request_from (ok all_infos) w = finish_peers (fetch_all all_infos [] w)

  unfoldable pub request_torrent_peers :
      UrlLibrary → TorrentClient → RequestInfo → Coroutine W (List PeerAddress)
  unfolding build_tracker_requests fetch_all remove_duplicates
  request_torrent_peers lib client info = request_from (build_tracker_requests lib client info)
