-- ===== src/Client/Built.antt =====
-- build_tracker_requests of src/bittorrent_client/torrent_client.cpp against the description of its requests.
use bittorrent_client.Base.{
  ℕ, ◌<◌, ◌≡◌, ◌↔◌, ◌⊎◌, inl, inr, refl, sym, ap, ◌∙◌, subst, true, false, List, [], ◌∷◌, map,
  Result, ok, err, arith, ltb, lt→ltb, ◌==◌, if◌then◌else◌, length, Ensures-ok,
}
use bittorrent_client.Torrent.Metainfo.{Multitracker}
use bittorrent_client.Announce.Exchange.{Failure, client_todo, RequestInfo}
use bittorrent_client.Client.Make.{TorrentClient}
use bittorrent_client.Client.Requests.{
  UrlLibrary, TrackerRequest, build_from_one, build_all, only, build_tracker_requests,
}
use bittorrent_client.Client.Addresses.{build_from_one-Ensures, build_from_one_complete}
use bittorrent_client.Client.Requested.{AreRequested}

Result-cases : {A E : Type 0} (r : Result E A) → ((a : A) × (r ≡ ok a)) ⊎ ((x : E) × (r ≡ err x))
Result-cases (ok a) = inl (a, refl)
Result-cases (err x) = inr (x, refl)

-- The addresses that count: the announce is ignored where there is an announce-list.
abbrev pub addresses_of : List ℕ → List Multitracker → List (List ℕ)
addresses_of announce [] = announce ∷ []
addresses_of announce (t ∷ trackers) = map (λ t. t.url_utf8) (t ∷ trackers)

module _ (lib : UrlLibrary) (client : TorrentClient) (info : RequestInfo) where
  build_all-AreRequested :
      (trackers : List Multitracker)
      → AreRequested lib client info
          (map (λ t. t.url_utf8) trackers)
          (build_all lib client info trackers)
  unfolding build_all
  build_all-AreRequested [] = refl
  build_all-AreRequested (t ∷ trackers) =
      one_address t.url_utf8 (map (λ t. t.url_utf8) trackers) (build_all lib client info trackers)
        (build_from_one lib client info t.url_utf8) refl (build_all-AreRequested trackers)
    where
      one_address :
          (url_utf8 : List ℕ) (urls : List (List ℕ)) (rest : List TrackerRequest)
          (r : Result Failure TrackerRequest)
          → build_from_one lib client info url_utf8 ≡ r
          → AreRequested lib client info urls rest
          → AreRequested lib client info
              (url_utf8 ∷ urls)
              (elim r [ ok data_ ↦ data_ ∷ rest | err e ↦ rest ])
      one_address url_utf8 urls rest (ok data_) e others = inl (
        data_,
        rest,
        Ensures-ok (build_from_one-Ensures lib client info url_utf8) e,
        others,
        refl,
      )
      one_address url_utf8 urls rest (err x) e others = inr (
        λ r asked.
            (let built : build_from_one lib client info url_utf8 ≡ ok r =
                build_from_one_complete lib client info url_utf8 r asked in
              cc),
        others,
      )

  build_all_complete :
      (trackers : List Multitracker) (requests : List TrackerRequest)
      → AreRequested lib client info (map (λ t. t.url_utf8) trackers) requests
      → requests ≡ build_all lib client info trackers
  unfolding build_all
  build_all_complete [] requests h = h
  build_all_complete (t ∷ trackers) requests (inl (r, others, asked, all, line)) =
      rw (build_from_one_complete lib client info t.url_utf8 r asked, build_all)
        (line ∙ ap (◌∷◌ r) (build_all_complete trackers others all))
  build_all_complete (t ∷ trackers) requests (inr (never, all)) =
      elim (Result-cases (build_from_one lib client info t.url_utf8)) [
        | inl (r, e) ↦
            absurd (never r (Ensures-ok (build_from_one-Ensures lib client info t.url_utf8) e))
        | inr (x, e) ↦ rw (e, build_all) (build_all_complete trackers requests all)
      ]

  -- There are requests, and they are those to these addresses.
  abbrev pub AreBuilt : List (List ℕ) → List TrackerRequest → Type 0
  AreBuilt urls requests = AreRequested lib client info urls requests × (0 < length requests)

  abbrev built_from : List Multitracker → Result Failure (List TrackerRequest)
  built_from trackers =
      if length trackers == 0
      then only lib client info (build_from_one lib client info client.metainfo.tracker_url_utf8)
      else (if ltb 0 (length (build_all lib client info trackers))
          then ok (build_all lib client info trackers)
          else err client_todo)

  only-AreBuilt :
      (announce : List ℕ) (requests : List TrackerRequest) (r : Result Failure TrackerRequest)
      → build_from_one lib client info announce ≡ r
      → only lib client info r ≡ ok requests
      → AreBuilt (announce ∷ []) requests
  only-AreBuilt announce requests (err x) e h = cc
  only-AreBuilt announce requests (ok r) e h =
      let same : r ∷ [] ≡ requests = cc in
      subst (AreBuilt (announce ∷ [])) same (
        inl (r, [], Ensures-ok (build_from_one-Ensures lib client info announce) e, refl, refl),
        omega arith,
      )

  chosen-AreBuilt :
      (urls : List (List ℕ)) (all requests : List TrackerRequest)
      → AreRequested lib client info urls all
      → if◌then◌else◌ {A = Result Failure (List TrackerRequest)}
          (ltb 0 (length all))
          (ok all)
          (err client_todo)
        ≡ ok requests
      → AreBuilt urls requests
  chosen-AreBuilt urls [] requests asked h = let m : err client_todo ≡ ok requests = h in cc
  chosen-AreBuilt urls (r ∷ all) requests asked h =
      let some_request : ltb 0 (length (r ∷ all)) ≡ true = lt→ltb _ _ (omega arith) in
      let m : ok (r ∷ all) ≡ ok requests = rw (some_request) at h in
      let same : r ∷ all ≡ requests = cc in subst (AreBuilt urls) same (asked, omega arith)

  built_from-AreBuilt :
      (trackers : List Multitracker) (requests : List TrackerRequest)
      → built_from trackers ≡ ok requests
      → AreBuilt (addresses_of client.metainfo.tracker_url_utf8 trackers) requests
  built_from-AreBuilt [] requests h =
      only-AreBuilt client.metainfo.tracker_url_utf8 requests _ refl h
  built_from-AreBuilt (t ∷ trackers) requests h =
      let some_tracker : (length (t ∷ trackers) == 0) ≡ false = ground arith in
      chosen-AreBuilt (map (λ t. t.url_utf8) (t ∷ trackers))
        (build_all lib client info (t ∷ trackers)) requests (build_all-AreRequested (t ∷ trackers))
        (rw (some_tracker) at h)

  built_from_complete :
      (trackers : List Multitracker) (requests : List TrackerRequest)
      → AreBuilt (addresses_of client.metainfo.tracker_url_utf8 trackers) requests
      → built_from trackers ≡ ok requests
  built_from_complete [] requests (inl (r, others, asked, none_left, line), some_request) =
      rw (build_from_one_complete lib client info client.metainfo.tracker_url_utf8 r asked)
        (ap ok (sym (line ∙ ap (◌∷◌ r) none_left)))
  built_from_complete [] requests (inr (never, none_left), some_request) =
      absurd (omega (arith, ap length none_left, some_request))
  built_from_complete (t ∷ trackers) requests (asked, some_request) =
      let some_tracker : (length (t ∷ trackers) == 0) ≡ false = ground arith in
      let same : requests ≡ build_all lib client info (t ∷ trackers) =
        build_all_complete (t ∷ trackers) requests asked in
      let there : ltb 0 (length (build_all lib client info (t ∷ trackers))) ≡ true =
        lt→ltb _ _ (subst (λ (rs : List TrackerRequest). 0 < length rs) same some_request) in
      rw (some_tracker, there) (ap ok (sym same))

  -- build_tracker_requests gives requests exactly when there is one at least and they are those to the addresses of
  -- the announce-list, or to the announce where there is no list, in their order and without the addresses to which
  -- there is none. A request is of the kind that the scheme of its address names. One by HTTP or HTTPS asks the host,
  -- the port (80 and 443 where none is named) and the path of the address with the seven parameters of the announce
  -- in its query; one by UDP names a host and a port, and has the info hash, the peer id and the information given.
  pub build_tracker_requests_lem :
      (requests : List TrackerRequest)
      → (build_tracker_requests lib client info ≡ ok requests)
        ↔ AreBuilt
            (addresses_of client.metainfo.tracker_url_utf8 client.metainfo.multi_trackers)
            requests
  unfolding build_tracker_requests
  build_tracker_requests_lem requests = (
    built_from-AreBuilt client.metainfo.multi_trackers requests,
    built_from_complete client.metainfo.multi_trackers requests,
  )
