-- ===== src/Client/Promise.antt =====
-- The peers that request_torrent_peers of src/bittorrent_client/torrent_client.cpp gives, by what the trackers answer.
use bittorrent_client.Base.{
  ◌<◌, ◌≡◌, refl, sym, ap, ◌∙◌, Bool, true, false, Option, none, some, List, [], ◌∷◌, ◌++◌,
  append-nil, append_assoc, Result, ok, err, ltb, ltb→lt, if◌then◌else◌, length, subst,
}
use bittorrent_client.Tracker.Response.{
  PeerAddress, TrackerResponse, monostate, on_success, on_error,
}
use bittorrent_client.Announce.Exchange.{
  Failure, client_todo, Network, RequestInfo, udp_tracker_announce, resume,
}
use bittorrent_client.Client.Make.{TorrentClient}
use bittorrent_client.Client.Peers.{try_get_only_peers, remove_duplicates}
use bittorrent_client.Client.Requests.{
  UrlLibrary, TrackerRequest, no_request, http_get_request, https_get_request, udp_request,
  build_tracker_requests,
}
use bittorrent_client.Client.Announce.{
  HttpGet, http_tracker_announce, only_peers, fetch_one, try_add_peers, fetch_all, finish_peers,
  request_from, request_torrent_peers,
}

-- The peers of an answer: none where the announce fails or the tracker refuses.
abbrev pub peers_in : Result Failure TrackerResponse → List PeerAddress
peers_in (ok (on_success s)) = s.peers
peers_in _ = []

abbrev added : Result Failure (List PeerAddress) → List PeerAddress
added (ok new_peers) = new_peers
added (err e) = []

module _ {W : Type 0} (net : Network W) (http_get https_get : HttpGet W) where
  -- What one tracker gives: the announce is the one of the request's kind, HTTPS with the GET that uses TLS.
  abbrev pub Answered : TrackerRequest → W → List PeerAddress → W → Type 0
  Answered no_request w peers w' = (peers ≡ []) × (w ≡ w')
  Answered (http_get_request r) w peers w' =
      (x : Result Failure TrackerResponse) × (http_tracker_announce http_get r w ≡ some (x, w'))
      × (peers ≡ peers_in x)
  Answered (https_get_request r) w peers w' =
      (x : Result Failure TrackerResponse) × (http_tracker_announce https_get r w ≡ some (x, w'))
      × (peers ≡ peers_in x)
  Answered (udp_request r) w peers w' =
      (x : Result Failure TrackerResponse) × (udp_tracker_announce net r w ≡ some (x, w'))
      × (peers ≡ peers_in x)

  -- What all trackers give, asked one after another.
  abbrev pub Gathered : List TrackerRequest → W → List PeerAddress → W → Type 0
  Gathered [] w peers w' = (peers ≡ []) × (w ≡ w')
  Gathered (asked ∷ requests) w peers w' =
      (first : List PeerAddress) × (others : List PeerAddress) × (w₁ : W) × Answered asked w first
        w₁
      × Gathered requests w₁ others w'
      × (peers ≡ first ++ others)

  try_add_peers-added :
      (all_peers : List PeerAddress) (r : Result Failure (List PeerAddress))
      → try_add_peers net http_get https_get all_peers r ≡ all_peers ++ added r
  try_add_peers-added all_peers (ok new_peers) = refl
  try_add_peers-added all_peers (err e) = sym (append-nil all_peers)

  resumed_peers :
      (o : Option (Result Failure TrackerResponse × W)) (r : Result Failure (List PeerAddress))
      (w' : W)
      → resume (only_peers net http_get https_get) o ≡ some (r, w')
      → (x : Result Failure TrackerResponse) × (o ≡ some (x, w')) × (added r ≡ peers_in x)
  unfolding resume try_get_only_peers
  resumed_peers none r w' h = cc
  resumed_peers (some (err e, w)) r w' h =
      let same : w ≡ w' = cc in
      let answer : err e ≡ r = cc in (err e, ap (λ v. some (err e, v)) same, sym (ap added answer))
  resumed_peers (some (ok (on_success s), w)) r w' h =
      let same : w ≡ w' = cc in
      let answer : ok (s.peers) ≡ r = cc in
      (ok (on_success s), ap (λ v. some (ok (on_success s), v)) same, sym (ap added answer))
  resumed_peers (some (ok (on_error e), w)) r w' h =
      let same : w ≡ w' = cc in
      let answer : err client_todo ≡ r = cc in
      (ok (on_error e), ap (λ v. some (ok (on_error e), v)) same, sym (ap added answer))
  resumed_peers (some (ok monostate, w)) r w' h =
      let same : w ≡ w' = cc in
      let answer : err client_todo ≡ r = cc in
      (ok monostate, ap (λ v. some (ok monostate, v)) same, sym (ap added answer))

  fetch_one-Answered :
      (asked : TrackerRequest) (w w' : W) (r : Result Failure (List PeerAddress))
      → fetch_one net http_get https_get asked w ≡ some (r, w')
      → Answered asked w (added r) w'
  unfolding fetch_one
  fetch_one-Answered no_request w w' r h =
      let same : w ≡ w' = cc in
      let answer : err client_todo ≡ r = cc in (sym (ap added answer), same)
  fetch_one-Answered (http_get_request q) w w' r h =
      resumed_peers (http_tracker_announce http_get q w) r w' h
  fetch_one-Answered (https_get_request q) w w' r h =
      resumed_peers (http_tracker_announce https_get q w) r w' h
  fetch_one-Answered (udp_request q) w w' r h = resumed_peers (udp_tracker_announce net q w) r w' h

  -- One answer, and then those of the other trackers.
  one_more :
      (asked : TrackerRequest) (requests : List TrackerRequest)
      (before all_peers : List PeerAddress) (w w' : W)
      (o : Option (Result Failure (List PeerAddress) × W))
      → ((start : List PeerAddress) (w₁ : W)
          → fetch_all net http_get https_get requests start w₁ ≡ some (all_peers, w')
          → (peers : List PeerAddress) × Gathered requests w₁ peers w'
            × (all_peers ≡ start ++ peers))
      → fetch_one net http_get https_get asked w ≡ o
      → (elim o [
        | none ↦ none
        | some got ↦
            fetch_all net http_get https_get requests
              (try_add_peers net http_get https_get before got.0)
              got.1
      ])
        ≡ some (all_peers, w')
      → (peers : List PeerAddress) × Gathered (asked ∷ requests) w peers w'
        × (all_peers ≡ before ++ peers)
  one_more asked requests before all_peers w w' none others e h =
      let bad : none ≡ some (all_peers, w') = h in cc
  one_more asked requests before all_peers w w' (some got) others e h =
      let (peers, rest, line) =
        others (try_add_peers net http_get https_get before got.0) got.1 h in
      (
        added got.0 ++ peers,
        (added got.0, peers, got.1, fetch_one-Answered asked w got.1 got.0 e, rest, refl),
        line
            ∙ ap (λ (ps : List PeerAddress). ps ++ peers) (try_add_peers-added before got.0)
            ∙ append_assoc before (added got.0) peers,
      )

  fetch_all-Gathered :
      (requests : List TrackerRequest) (before all_peers : List PeerAddress) (w w' : W)
      → fetch_all net http_get https_get requests before w ≡ some (all_peers, w')
      → (peers : List PeerAddress) × Gathered requests w peers w' × (all_peers ≡ before ++ peers)
  unfolding fetch_all
  fetch_all-Gathered [] before all_peers w w' h =
      let same : w ≡ w' = cc in
      let all : before ≡ all_peers = cc in ([], (refl, same), sym all ∙ sym (append-nil before))
  fetch_all-Gathered (asked ∷ requests) before all_peers w w' h =
      one_more asked requests before all_peers w w' (fetch_one net http_get https_get asked w)
        (λ start w₁ e. fetch_all-Gathered requests start all_peers w₁ w' e) refl h

  chosen :
      (b : Bool) (all_peers peers : List PeerAddress) (w₀ w : W)
      → ltb 0 (length (remove_duplicates all_peers)) ≡ b
      → if◌then◌else◌ {A = Option (Result Failure (List PeerAddress) × W)} b
          (some (ok (remove_duplicates all_peers), w₀))
          (some (err client_todo, w₀))
        ≡ some (ok peers, w)
      → (peers ≡ remove_duplicates all_peers) × (0 < length peers) × (w₀ ≡ w)
  chosen true all_peers peers w₀ w e h =
      let same : remove_duplicates all_peers ≡ peers = cc in
      (
        sym same,
        subst (λ (ps : List PeerAddress). 0 < length ps) same
            (ltb→lt 0 (length (remove_duplicates all_peers)) e),
        cc,
      )
  chosen false all_peers peers w₀ w e h = cc

  -- The peers that a client gets are those of its trackers.
  abbrev pub AreGathered : Result Failure (List TrackerRequest) → List PeerAddress → W → W → Type 0
  AreGathered built peers w w' =
      (requests : List TrackerRequest) × (all_peers : List PeerAddress) × (built ≡ ok requests)
      × Gathered requests w all_peers w'
      × (peers ≡ remove_duplicates all_peers)
      × (0 < length peers)

  finished :
      (requests : List TrackerRequest) (o : Option (List PeerAddress × W))
      (peers : List PeerAddress) (w w' : W)
      → fetch_all net http_get https_get requests [] w ≡ o
      → finish_peers net http_get https_get o ≡ some (ok peers, w')
      → AreGathered (ok requests) peers w w'
  finished requests none peers w w' e h = cc
  finished requests (some (all_peers, w₁)) peers w w' e h =
      let (same, some_peer, there) =
        chosen (ltb 0 (length (remove_duplicates all_peers))) all_peers peers w₁ w' refl h in
      let (gathered, run, line) =
        fetch_all-Gathered requests [] all_peers w w' (e ∙ ap (λ v. some (all_peers, v)) there) in
      (requests, gathered, refl, run, same ∙ ap remove_duplicates line, some_peer)

  request_from-AreGathered :
      (built : Result Failure (List TrackerRequest)) (peers : List PeerAddress) (w w' : W)
      → request_from net http_get https_get built w ≡ some (ok peers, w')
      → AreGathered built peers w w'
  request_from-AreGathered (err e) peers w w' h = cc
  request_from-AreGathered (ok requests) peers w w' h =
      finished requests (fetch_all net http_get https_get requests [] w) peers w w' refl h

  -- When request_torrent_peers gives peers, there is one at least, and they are what RemoveDuplicates
  -- leaves of the peers of all trackers, one tracker after another: each request that was built is announced in its turn, by
  -- HTTP_GET, HTTPS_GET_NoVerification or UDP as its kind says, and gives the peers of a successful response, and
  -- none where the announce fails or the tracker refuses.
  pub request_torrent_peers_lem :
      (lib : UrlLibrary) (client : TorrentClient) (info : RequestInfo) (peers : List PeerAddress)
      (w w' : W)
      → request_torrent_peers net http_get https_get lib client info w ≡ some (ok peers, w')
      → AreGathered (build_tracker_requests lib client info) peers w w'
  unfolding request_torrent_peers
  request_torrent_peers_lem lib client info peers w w' h =
      request_from-AreGathered (build_tracker_requests lib client info) peers w w' h
