-- ===== src/Client/PeerId.antt =====
-- GetSHA1 and GetRandomPeerId of src/small_utils/utils_bytes.cpp.
use bittorrent_client.Base.{
  false, ℕ, zero, suc, ◌+◌, ◌-◌, ◌<◌, ◌≡◌, refl, Option, none, some, List, [], ◌++◌, arith, ◌==◌,
  if◌then◌else◌, length, length-append, length-take, take, replicate, min,
}
use bittorrent_client.Wire.Endian.{memory_of, length-memory_of}

-- The digest of the library TinySHA1 is a parameter.
unfoldable pub get_sha1 : (List ℕ → List ℕ) → List ℕ → List ℕ
get_sha1 digest data_ = if length data_ == 0 then replicate 20 0 else digest data_

module _ {W : Type 0} (random : W → ℕ × W) where
  abbrev pub prepend : List ℕ → Option (List ℕ × W) → Option (List ℕ × W)
  prepend bytes (some (rest, w)) = some (bytes ++ rest, w)
  prepend bytes none = none

  -- The loop, with `remaining` for `end - current`. `none` where the fuel ends.
  unfoldable pub fill_peer_id : ℕ → ℕ → W → Option (List ℕ × W)
  fill_peer_id zero remaining w = none
  fill_peer_id (suc fuel) remaining w =
      let n = random w in
      let available : ℕ = min 4 remaining in
      let rest = fill_peer_id fuel (remaining - available) n.1 in
      if remaining == 0 then some ([], w) else prepend (take available (memory_of 4 n.0)) rest

  unfoldable pub get_random_peer_id : W → Option (List ℕ × W)
  unfolding fill_peer_id
  get_random_peer_id w = fill_peer_id 21 20 w

  prepend_lem :
      (bytes : List ℕ) (n m : ℕ) (o : Option (List ℕ × W))
      → ((r : List ℕ × W) × (o ≡ some r) × (length r.0 ≡ m))
      → length bytes + m ≡ n
      → (r : List ℕ × W) × (prepend bytes o ≡ some r) × (length r.0 ≡ n)
  prepend_lem bytes n m o (r, e, l) h =
      ((bytes ++ r.0, r.1), rw (e) refl, omega (arith, length-append bytes r.0))

  fill_peer_id_lem :
      (fuel remaining : ℕ) (w : W)
      → remaining < fuel
      → (r : List ℕ × W) × (fill_peer_id fuel remaining w ≡ some r) × (length r.0 ≡ remaining)
  unfolding fill_peer_id
  fill_peer_id_lem zero remaining w h = absurd (omega arith)
  fill_peer_id_lem (suc fuel) zero w h = (([], w), refl, refl)
  fill_peer_id_lem (suc fuel) (suc m) w h =
      let n = random w in
      let available : ℕ = min 4 (suc m) in
      let some_left : (suc m == 0) ≡ false = ground arith in
      rw (some_left) (
        prepend_lem (take available (memory_of 4 n.0)) (suc m) (suc m - available)
          (fill_peer_id fuel (suc m - available) n.1)
          (fill_peer_id_lem fuel (suc m - available) n.1 (omega arith))
          (omega (arith, length-take available (memory_of 4 n.0), length-memory_of 4 n.0)))

  -- GetRandomPeerId ends, whatever is drawn, with a peer id of 20 bytes.
  pub get_random_peer_id_total :
      (w : W) → (r : List ℕ × W) × (get_random_peer_id w ≡ some r) × (length r.0 ≡ 20)
  unfolding get_random_peer_id
  get_random_peer_id_total w = fill_peer_id_lem 21 20 w (omega arith)
