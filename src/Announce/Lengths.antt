-- ===== src/Announce/Lengths.antt =====
-- The sizes of the answers of a tracker.
use bittorrent_client.Base.{
  ℕ, zero, suc, ◌+◌, ◌*◌, ◌/◌, ◌%◌, ◌<◌, ◌≡◌, refl, List, [], ◌∷◌, ◌++◌, arith, length,
  length-append,
}
use bittorrent_client.Wire.Endian.{network_of}
use bittorrent_client.Tracker.Response.{peers_of}
use bittorrent_client.Announce.Messages.{UdpAnnounceResponse}
use bittorrent_client.Announce.Promise.{announce_answer}

pub length-network_of : (n x : ℕ) → length (network_of n x) ≡ n
unfolding network_of
length-network_of zero x = refl
length-network_of (suc n) x =
    omega (
      arith,
      length-append (network_of n (x / 256)) ((x % 256) ∷ []),
      length-network_of n (x / 256),
    )

pub length-announce_answer :
    (m : UdpAnnounceResponse) (body : List ℕ) → length (announce_answer m body) ≡ 20 + length body
length-announce_answer m body =
    let rest₄ : List ℕ = network_of 4 m.seeders ++ body in
    let rest₃ : List ℕ = network_of 4 m.leechers ++ rest₄ in
    let rest₂ : List ℕ = network_of 4 m.intervals_secs ++ rest₃ in
    let rest₁ : List ℕ = network_of 4 m.transaction_id ++ rest₂ in
    omega (
      arith,
      length-append (network_of 4 m.action) rest₁,
      length-append (network_of 4 m.transaction_id) rest₂,
      length-append (network_of 4 m.intervals_secs) rest₃,
      length-append (network_of 4 m.leechers) rest₄,
      length-append (network_of 4 m.seeders) body,
      length-network_of 4 m.action,
      length-network_of 4 m.transaction_id,
      length-network_of 4 m.intervals_secs,
      length-network_of 4 m.leechers,
      length-network_of 4 m.seeders,
    )

pub peers_of-positive :
    (n : ℕ) (body : List ℕ) → length body ≡ 6 * suc n → 0 < length (peers_of body)
unfolding peers_of
peers_of-positive n [] h = absurd (omega arith)
peers_of-positive n (a ∷ []) h = absurd (omega arith)
peers_of-positive n (a ∷ b ∷ []) h = absurd (omega arith)
peers_of-positive n (a ∷ b ∷ c ∷ []) h = absurd (omega arith)
peers_of-positive n (a ∷ b ∷ c ∷ d ∷ []) h = absurd (omega arith)
peers_of-positive n (a ∷ b ∷ c ∷ d ∷ p ∷ []) h = absurd (omega arith)
peers_of-positive n (a ∷ b ∷ c ∷ d ∷ p ∷ q ∷ rest) h = omega arith
