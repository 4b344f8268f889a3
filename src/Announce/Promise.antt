-- ===== src/Announce/Promise.antt =====
-- What the messages of the UDP tracker protocol promise.
use bittorrent_client.Base.{
  ℕ, zero, suc, ◌+◌, ◌-◌, ◌*◌, ◌/◌, ◌%◌, ◌^◌, ◌<◌, ◌≡◌, refl, ap, sym, ◌∙◌, true, some, List, [],
  ◌∷◌, ◌++◌, ok, err, arith, length, take, drop, replicate, length-append, le→leb, append_assoc,
  take-append, drop-append, Bool-cases, inl, inr, ◌==◌, if◌then◌else◌, true, lt→ltb,
}
use bittorrent_client.Wire.Endian.{network_of}
use bittorrent_client.Wire.Bytes.{
  make_reader-cons, read_next, read_last, make_reader, finalize_reader, get_remaining,
}
use bittorrent_client.Wire.Messages.{big32, todo}
use bittorrent_client.Wire.Framing.{big32-network, from_big32-big32, length-big32}
use bittorrent_client.Tracker.Response.{peers_of}
use bittorrent_client.Announce.Messages.{UdpAnnounceResponse, read_peers, parse_announce_response}
use bittorrent_client.Announce.Layout.{make_reader_lem}

read_peers_lem :
    (n fuel : ℕ) (bytes : List ℕ)
    → length bytes ≡ 6 * n
    → n < fuel
    → read_peers fuel (record { rest = bytes; valid = true }) ≡ some (peers_of bytes)
unfolding read_peers peers_of get_remaining
read_peers_lem n zero bytes h w = absurd (omega arith)
read_peers_lem zero (suc fuel) [] h w = refl
read_peers_lem zero (suc fuel) (a ∷ bytes) h w = absurd (omega arith)
read_peers_lem (suc n) (suc fuel) [] h w = absurd (omega arith)
read_peers_lem (suc n) (suc fuel) (a ∷ []) h w = absurd (omega arith)
read_peers_lem (suc n) (suc fuel) (a ∷ b ∷ []) h w = absurd (omega arith)
read_peers_lem (suc n) (suc fuel) (a ∷ b ∷ c ∷ []) h w = absurd (omega arith)
read_peers_lem (suc n) (suc fuel) (a ∷ b ∷ c ∷ d ∷ []) h w = absurd (omega arith)
read_peers_lem (suc n) (suc fuel) (a ∷ b ∷ c ∷ d ∷ p ∷ []) h w = absurd (omega arith)
read_peers_lem (suc n) (suc fuel) (a ∷ b ∷ c ∷ d ∷ p ∷ q ∷ bytes) h w =
    rw
      (
        read_next 4 (a ∷ b ∷ c ∷ d ∷ []) (p ∷ q ∷ bytes) (replicate 4 0) refl,
        read_next 2 (p ∷ q ∷ []) bytes (replicate 2 0) refl,
        lt→ltb 0 (length (a ∷ b ∷ c ∷ d ∷ p ∷ q ∷ bytes)) (omega arith),
        read_peers_lem n fuel bytes (omega arith) (omega arith),
      )
      refl

-- The reader of an empty buffer is not valid from the start.
read_peers-empty : (fuel : ℕ) → read_peers (suc fuel) (make_reader []) ≡ some []
unfolding make_reader read_peers
read_peers-empty fuel = refl

read_peers-make_reader :
    (fuel n : ℕ) (bytes : List ℕ)
    → length bytes ≡ 6 * n
    → n < fuel
    → read_peers fuel (make_reader bytes) ≡ some (peers_of bytes)
unfolding make_reader peers_of
read_peers-make_reader zero n bytes h w = absurd (omega arith)
read_peers-make_reader (suc fuel) n [] h w = read_peers-empty fuel
read_peers-make_reader (suc fuel) n (b ∷ bytes) h w =
    ap (read_peers (suc fuel)) (make_reader-cons b bytes)
    ∙ read_peers_lem n (suc fuel) (b ∷ bytes) h w

-- The five words of the header, and what follows it.
abbrev pub announce_answer : UdpAnnounceResponse → List ℕ → List ℕ
announce_answer m body =
    network_of 4 m.action
    ++ (network_of 4 m.transaction_id
        ++ (network_of 4 m.intervals_secs
            ++ (network_of 4 m.leechers ++ (network_of 4 m.seeders ++ body))))

module _ (m : UdpAnnounceResponse) (body unused : List ℕ) (h1 : m.action < 2 ^ 32)
    (h2 : m.transaction_id < 2 ^ 32) (h3 : m.intervals_secs < 2 ^ 32) (h4 : m.leechers < 2 ^ 32)
    (h5 : m.seeders < 2 ^ 32) where
  abbrev header : List ℕ
  header =
      big32 m.action
      ++ (big32 m.transaction_id
          ++ (big32 m.intervals_secs ++ (big32 m.leechers ++ big32 m.seeders)))

  length-header : length header ≡ 20
  length-header = omega (
    arith,
    length-big32 m.action,
    length-big32 m.transaction_id,
    length-big32 m.intervals_secs,
    length-big32 m.leechers,
    length-big32 m.seeders,
    length-append (big32 m.action) (
        big32 m.transaction_id
        ++ (big32 m.intervals_secs ++ (big32 m.leechers ++ big32 m.seeders))),
    length-append (big32 m.transaction_id)
        (big32 m.intervals_secs ++ (big32 m.leechers ++ big32 m.seeders)),
    length-append (big32 m.intervals_secs) (big32 m.leechers ++ big32 m.seeders),
    length-append (big32 m.leechers) (big32 m.seeders),
  )

  answer-header : announce_answer m body ++ unused ≡ header ++ (body ++ unused)
  answer-header =
      rw
        (
          sym (big32-network m.action h1),
          sym (big32-network m.transaction_id h2),
          sym (big32-network m.intervals_secs h3),
          sym (big32-network m.leechers h4),
          sym (big32-network m.seeders h5),
          append_assoc (big32 m.action)
              (big32 m.transaction_id
                ++ (big32 m.intervals_secs ++ (big32 m.leechers ++ (big32 m.seeders ++ body))))
              unused,
          append_assoc (big32 m.transaction_id)
              (big32 m.intervals_secs ++ (big32 m.leechers ++ (big32 m.seeders ++ body))) unused,
          append_assoc (big32 m.intervals_secs) (big32 m.leechers ++ (big32 m.seeders ++ body))
              unused,
          append_assoc (big32 m.leechers) (big32 m.seeders ++ body) unused,
          append_assoc (big32 m.seeders) body unused,
          append_assoc (big32 m.action)
              (big32 m.transaction_id
                ++ (big32 m.intervals_secs ++ (big32 m.leechers ++ big32 m.seeders)))
              (body ++ unused),
          append_assoc (big32 m.transaction_id)
              (big32 m.intervals_secs ++ (big32 m.leechers ++ big32 m.seeders)) (body ++ unused),
          append_assoc (big32 m.intervals_secs) (big32 m.leechers ++ big32 m.seeders)
              (body ++ unused),
          append_assoc (big32 m.leechers) (big32 m.seeders) (body ++ unused),
        )
        refl

  take-header : take 20 (header ++ (body ++ unused)) ≡ header
  take-header =
      ap (λ n. take n (header ++ (body ++ unused))) (sym length-header)
      ∙ take-append header (body ++ unused)

  drop-header : drop 20 (header ++ (body ++ unused)) ≡ body ++ unused
  drop-header =
      ap (λ n. drop n (header ++ (body ++ unused))) (sym length-header)
      ∙ drop-append header (body ++ unused)

  -- Message_UDP_Announce_Response::ParseNetwork on a buffer of which a header of five words in network order and
  -- the bytes `body` were received: if the length of `body` is a multiple of six, the message has the five words
  -- and the peers that the parser of HTTP answers makes of `body`, and the loop ends; otherwise it is refused.
  -- The rest of the buffer, `unused`, is not looked at.
  pub parse_announce_response_lem :
      parse_announce_response (announce_answer m body ++ unused) (20 + length body)
      ≡ some (if length body % 6 == 0 then ok (record m { peers = peers_of body }) else err todo)
  unfolding parse_announce_response finalize_reader
  parse_announce_response_lem =
      let rest₁ : List ℕ =
        big32 m.transaction_id
        ++ (big32 m.intervals_secs ++ (big32 m.leechers ++ big32 m.seeders)) in
      let rest₂ : List ℕ = big32 m.intervals_secs ++ (big32 m.leechers ++ big32 m.seeders) in
      let rest₃ : List ℕ = big32 m.leechers ++ big32 m.seeders in
      let n : 20 + length body - 20 ≡ length body = omega arith in
      rw
        (
          answer-header,
          take-header,
          drop-header,
          n,
          take-append body unused,
          le→leb 20 (20 + length body) (omega arith),
          make_reader_lem 3 (big32 m.action) rest₁ (length-big32 m.action),
          read_next 4 (big32 m.action) rest₁ (replicate 4 0) (length-big32 m.action),
          read_next 4 (big32 m.transaction_id) rest₂ (replicate 4 0)
              (length-big32 m.transaction_id),
          read_next 4 (big32 m.intervals_secs) rest₃ (replicate 4 0)
              (length-big32 m.intervals_secs),
          read_next 4 (big32 m.leechers) (big32 m.seeders) (replicate 4 0)
              (length-big32 m.leechers),
          read_last 4 (big32 m.seeders) (replicate 4 0) (length-big32 m.seeders),
        )
        (elim (Bool-cases (length body % 6 == 0)) [
          | inl e ↦
              let d : length body ≡ 6 * (length body / 6) = ground (arith, e) in
              rw
                (
                  e,
                  read_peers-make_reader (suc (length body)) (length body / 6) body d (omega arith),
                  from_big32-big32 m.action h1,
                  from_big32-big32 m.transaction_id h2,
                  from_big32-big32 m.intervals_secs h3,
                  from_big32-big32 m.leechers h4,
                  from_big32-big32 m.seeders h5,
                )
                refl
          | inr e ↦ rw (e) refl
        ])
