-- ===== src/Client/Requested.antt =====
-- Which requests build_tracker_requests of src/bittorrent_client/torrent_client.cpp makes, by the addresses of the
-- trackers.
use bittorrent_client.Base.{ℕ, ◌%◌, ◌^◌, ◌<◌, ◌≡◌, ◌⊎◌, some, List, [], ◌∷◌, ◌++◌, length}
use bittorrent_client.Bencode.Length.{IsLength}
use bittorrent_client.Announce.Exchange.{RequestInfo, UdpRequest}
use bittorrent_client.Client.Make.{TorrentClient}
use bittorrent_client.Client.Requests.{
  UrlLibrary, HttpGetRequest, TrackerRequest, no_request, http_get_request, https_get_request,
  udp_request, http_text, https_text, udp_text, info_hash_text, peer_id_text, port_text,
  uploaded_text, downloaded_text, left_text, compact_text, or_slash,
}

-- The port that a text names, as 16 bits of its number.
abbrev pub NamesPort : List ℕ → ℕ → Type 0
NamesPort text port = (n : ℕ) × IsLength text n × (port ≡ n % 2 ^ 16)

module _ (lib : UrlLibrary) (client : TorrentClient) (info : RequestInfo) where
  -- What an HTTP tracker is told, in this order.
  abbrev pub query : List (List ℕ × List ℕ)
  query =
      (info_hash_text, client.info_hash)
      ∷ (peer_id_text, client.peer_id)
      ∷ (port_text, lib.to_string info.server_port)
      ∷ (uploaded_text, lib.to_string info.uploaded_pieces)
      ∷ (downloaded_text, lib.to_string info.downloaded_pieces)
      ∷ (left_text, lib.to_string info.pieces_left)
      ∷ (compact_text, lib.to_string 1)
      ∷ []

  abbrev pub add_all : List (List ℕ × List ℕ) → lib.Url → lib.Url
  add_all [] url = url
  add_all (q ∷ qs) url = add_all qs (lib.add_query q.0 q.1 url)

  -- A request to the host, port and path of an address with the query; a missing port is the default one.
  abbrev pub AsksHttp : lib.Url → ℕ → HttpGetRequest → Type 0
  AsksHttp url default_port r =
      let told : lib.Url = add_all query url in
      (0 < length (lib.host url))
      × (r.host ≡ lib.host told)
      × (((lib.port told ≡ []) × (r.port ≡ default_port)) ⊎ NamesPort (lib.port told) r.port)
      × (r.get_uri ≡ or_slash (lib.path told) ++ lib.build_query_str told)

  abbrev pub AsksUdp : lib.Url → UdpRequest → Type 0
  AsksUdp url r =
      (0 < length (lib.host url))
      × (r.host ≡ lib.host url)
      × NamesPort (lib.port url) r.port
      × (r.info ≡ info)
      × (r.info_hash ≡ client.info_hash)
      × (r.peer_id ≡ client.peer_id)

  -- The request is of the kind that the scheme names.
  abbrev pub Asks : lib.Url → TrackerRequest → Type 0
  Asks url no_request = ⊥
  Asks url (http_get_request r) = (lib.scheme url ≡ http_text) × AsksHttp url 80 r
  Asks url (https_get_request r) = (lib.scheme url ≡ https_text) × AsksHttp url 443 r
  Asks url (udp_request r) = (lib.scheme url ≡ udp_text) × AsksUdp url r

  -- The request to the tracker at an address.
  abbrev pub IsRequested : List ℕ → TrackerRequest → Type 0
  IsRequested url_utf8 r = (url : lib.Url) × (lib.parse url_utf8 ≡ some url) × Asks url r

  -- The requests to the trackers at these addresses, in their order, without those to which there is none.
  abbrev pub AreRequested : List (List ℕ) → List TrackerRequest → Type 0
  AreRequested [] rs = rs ≡ []
  AreRequested (url_utf8 ∷ urls) rs =
      ((r : TrackerRequest) × (others : List TrackerRequest) × IsRequested url_utf8 r
        × AreRequested urls others
        × (rs ≡ r ∷ others))
      ⊎ (((r : TrackerRequest) → ¬ IsRequested url_utf8 r) × AreRequested urls rs)
