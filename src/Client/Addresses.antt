-- ===== src/Client/Addresses.antt =====
-- The request to one tracker, by build_from_one in src/bittorrent_client/torrent_client.cpp, against its description.
use bittorrent_client.Base.{
  ℕ, ◌%◌, ◌^◌, ◌<◌, ◌≡◌, ◌⊎◌, inl, inr, refl, sym, ap, false, ◌||◌, Option, none, some, List, [],
  ◌∷◌, ok, arith, ◌==◌, if◌then◌else◌, length, Option-cases, Ensures, holds, rejected, Ensures-if,
  Ensures-mono, bytes_eq, bytes_eq→eq,
}
use bittorrent_client.Bencode.Length.{parse_length, parse_length_sound, parse_length_complete}
use bittorrent_client.Announce.Exchange.{Failure, RequestInfo, UdpRequest}
use bittorrent_client.Client.Make.{TorrentClient}
use bittorrent_client.Client.Requests.{
  UrlLibrary, HttpGetRequest, TrackerRequest, no_request, http_get_request, https_get_request,
  udp_request, http_text, https_text, udp_text, port_of, with_query, http_body, build_http_request,
  udp_body, build_udp_request, build_from_one,
}
use bittorrent_client.Client.Requested.{NamesPort, AsksHttp, AsksUdp, Asks, IsRequested}

-- Anything may be the error.
abbrev pub AnyError : Failure → Type 0
AnyError e = Unit {0}

port_of-NamesPort :
    (text : List ℕ) (port : ℕ) → port_of (parse_length text) ≡ some port → NamesPort text port
port_of-NamesPort text port h = elim (Option-cases (parse_length text)) [
  | inl e ↦ (let m : none ≡ some port = rw (e) at h in cc)
  | inr (n, e) ↦
      let m : some (n % 2 ^ 16) ≡ some port = rw (e) at h in (n, parse_length_sound text n e, cc)
]

port_of_complete :
    (text : List ℕ) (port : ℕ) → NamesPort text port → port_of (parse_length text) ≡ some port
port_of_complete text port (n, num, same) =
    rw (parse_length_complete text n num) (ap some (sym same))

-- The port of an address, or the default one.
abbrev PortIs : List ℕ → ℕ → ℕ → Type 0
PortIs text default_port port = ((text ≡ []) × (port ≡ default_port)) ⊎ NamesPort text port

abbrev port_or : List ℕ → ℕ → Option ℕ
port_or text default_port =
    if length text == 0 then some default_port else port_of (parse_length text)

port_or-PortIs :
    (text : List ℕ) (default_port port : ℕ)
    → port_or text default_port ≡ some port
    → PortIs text default_port port
port_or-PortIs [] default_port port h = let same : default_port ≡ port = cc in inl (refl, sym same)
port_or-PortIs (c ∷ text) default_port port h =
    let some_char : (length (c ∷ text) == 0) ≡ false = ground arith in
    inr (port_of-NamesPort (c ∷ text) port (rw (some_char) at h))

port_or_complete :
    (text : List ℕ) (default_port port : ℕ)
    → PortIs text default_port port
    → port_or text default_port ≡ some port
port_or_complete text default_port port (inl (empty, same)) = rw (empty) (ap some (sym same))
port_or_complete text default_port port (inr (n, num, same)) =
    let some_char : (length text == 0) ≡ false = ground (arith, num.some_digit) in
    rw (some_char) (port_of_complete text port (n, num, same))

module _ (lib : UrlLibrary) (client : TorrentClient) (info : RequestInfo) where
  -- The body of an HTTP request is of one of two kinds.
  module _ (body : HttpGetRequest → TrackerRequest) (url : lib.Url) (default_port : ℕ) where
    http_body-Ensures :
        {P : TrackerRequest → Type 0} (o : Option ℕ)
        → 0 < length (lib.host url)
        → ((port : ℕ)
            → o ≡ some port
            → PortIs (lib.port (with_query lib client info url)) default_port port)
        → ((r : HttpGetRequest) → AsksHttp lib client info url default_port r → P (body r))
        → Ensures AnyError P (http_body lib client info body (with_query lib client info url) o)
    http_body-Ensures none host named k = rejected tt
    http_body-Ensures (some port) host named k = holds (k _ (host, refl, named port refl, refl))

    build_http_request-Ensures :
        {P : TrackerRequest → Type 0}
        → ((r : HttpGetRequest) → AsksHttp lib client info url default_port r → P (body r))
        → Ensures AnyError P (build_http_request lib client info body url default_port)
    unfolding build_http_request
    build_http_request-Ensures k =
        Ensures-if (length (lib.host url) == 0) (λ _. rejected tt)
          (λ e.
            http_body-Ensures (port_or (lib.port (with_query lib client info url)) default_port)
              (ground (arith, e))
              (port_or-PortIs (lib.port (with_query lib client info url)) default_port) k)

    build_http_request_complete :
        (r : HttpGetRequest)
        → AsksHttp lib client info url default_port r
        → build_http_request lib client info body url default_port ≡ ok (body r)
    unfolding build_http_request
    build_http_request_complete r (host, same_host, port, uri) =
        let has_host : (length (lib.host url) == 0) ≡ false = ground (arith, host) in
        rw
          (
            has_host,
            port_or_complete (lib.port (with_query lib client info url)) default_port r.port port,
            ← same_host,
            ← uri,
          )
          refl

  udp_body-Ensures :
      (url : lib.Url) (o : Option ℕ)
      → lib.scheme url ≡ udp_text
      → 0 < length (lib.host url)
      → ((port : ℕ) → o ≡ some port → NamesPort (lib.port url) port)
      → Ensures AnyError (Asks lib client info url) (udp_body lib client info url o)
  udp_body-Ensures url none scheme host named = rejected tt
  udp_body-Ensures url (some port) scheme host named =
      holds (scheme, (host, refl, named port refl, refl, refl, refl))

  build_udp_request-Ensures :
      (url : lib.Url)
      → lib.scheme url ≡ udp_text
      → Ensures AnyError (Asks lib client info url) (build_udp_request lib client info url)
  unfolding build_udp_request
  build_udp_request-Ensures url scheme =
      Ensures-if ((length (lib.host url) == 0) || (length (lib.port url) == 0)) (λ _. rejected tt)
        (λ e.
          udp_body-Ensures url (port_of (parse_length (lib.port url))) scheme (ground (arith, e))
            (port_of-NamesPort (lib.port url)))

  build_udp_request_complete :
      (url : lib.Url) (r : UdpRequest)
      → AsksUdp lib client info url r
      → build_udp_request lib client info url ≡ ok (udp_request r)
  unfolding build_udp_request
  build_udp_request_complete url r (host, same_host, (n, num, same_port), same, hash, id) =
      let has_host : (length (lib.host url) == 0) ≡ false = ground (arith, host) in
      let has_port : (length (lib.port url) == 0) ≡ false = ground (arith, num.some_digit) in
      rw
        (
          has_host,
          has_port,
          port_of_complete (lib.port url) r.port (n, num, same_port),
          ← same_host,
          ← same,
          ← hash,
          ← id,
        )
        refl

  pub build_from_one-Ensures :
      (url_utf8 : List ℕ)
      → Ensures AnyError
          (IsRequested lib client info url_utf8)
          (build_from_one lib client info url_utf8)
  unfolding build_from_one
  build_from_one-Ensures url_utf8 = elim (Option-cases (lib.parse url_utf8)) [
    | inl e ↦ rw (e) (rejected tt)
    | inr (url, e) ↦ rw (e) (
        Ensures-if (bytes_eq (lib.scheme url) http_text)
          (λ s.
            build_http_request-Ensures http_get_request url 80
              (λ r asks. (url, e, (bytes_eq→eq (lib.scheme url) http_text s, asks))))
          (λ _.
            Ensures-if (bytes_eq (lib.scheme url) https_text)
              (λ s.
                build_http_request-Ensures https_get_request url 443
                  (λ r asks. (url, e, (bytes_eq→eq (lib.scheme url) https_text s, asks))))
              (λ _.
                Ensures-if (bytes_eq (lib.scheme url) udp_text)
                  (λ s.
                    Ensures-mono
                      (build_udp_request-Ensures url (bytes_eq→eq (lib.scheme url) udp_text s))
                      (λ r asks. (url, e, asks)))
                  (λ _. rejected tt))))
  ]

  pub build_from_one_complete :
      (url_utf8 : List ℕ) (r : TrackerRequest)
      → IsRequested lib client info url_utf8 r
      → build_from_one lib client info url_utf8 ≡ ok r
  unfolding build_from_one bytes_eq
  build_from_one_complete url_utf8 no_request (url, parsed, asks) = absurd asks
  build_from_one_complete url_utf8 (http_get_request r) (url, parsed, (scheme, asks)) =
      rw (parsed, scheme) (build_http_request_complete http_get_request url 80 r asks)
  build_from_one_complete url_utf8 (https_get_request r) (url, parsed, (scheme, asks)) =
      rw (parsed, scheme) (build_http_request_complete https_get_request url 443 r asks)
  build_from_one_complete url_utf8 (udp_request r) (url, parsed, (scheme, asks)) =
      rw (parsed, scheme) (build_udp_request_complete url r asks)
