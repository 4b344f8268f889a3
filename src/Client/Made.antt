-- ===== src/Client/Made.antt =====
-- What the assertions of TorrentClient::make give to the download.
use bittorrent_client.Base.{
  ℕ, ◌+◌, ◌-◌, ◌*◌, ◌%◌, ◌^◌, ◌≤◌, ◌<◌, ◌≡◌, refl, true, ◌&&◌, Option, none, some, List, Result, ok,
  err, arith, ◌==◌, if◌then◌else◌, ltb, leb, Bool-cases, inl, inr, subst,
}
use bittorrent_client.Torrent.Values.{ContentError}
use native.Mathlib.Nat.{mul-le-mul_right}
use bittorrent_client.Torrent.Metainfo.{TorrentMetainfo}
use bittorrent_client.Torrent.File.{TorrentFileInfo, parse_torrent_file_content}
use bittorrent_client.Client.Totals.{get_pieces_count, get_piece_size_bytes, get_total_size_bytes}
use bittorrent_client.Client.PeerId.{get_sha1, get_random_peer_id}
use bittorrent_client.Client.Make.{
  TorrentClient, MakeError, sizes_make_sense, as_string_view, checked, make_client, make,
  with_state, make_parsed, pieces_of,
}
use bittorrent_client.Download.Pieces.{get_piece_size}
use bittorrent_client.Download.Sizes.{get_piece_size_lem}

pub record SizesFit (client : TorrentClient) : Type 0 where
  pub total : ℕ
  pub has_total : get_total_size_bytes client.metainfo.length_or_files ≡ some total
  pub some_pieces : 0 < get_pieces_count client.metainfo
  pub some_bytes : 0 < get_piece_size_bytes client.metainfo
  pub before_last :
      get_piece_size_bytes client.metainfo * (get_pieces_count client.metainfo - 1) < total
  pub last_fits :
      total - get_piece_size_bytes client.metainfo * (get_pieces_count client.metainfo - 1)
      ≤ get_piece_size_bytes client.metainfo

product_lt : (a b : ℕ) → a < 2 ^ 32 → b < 2 ^ 32 → a * b < 2 ^ 64
product_lt a b ha hb =
    let le : a * b ≤ (2 ^ 32 - 1) * b = mul-le-mul_right b (omega arith) in omega (arith, le)

get_piece_size_bytes-lt : (m : TorrentMetainfo) → get_piece_size_bytes m < 2 ^ 32
unfolding get_piece_size_bytes
get_piece_size_bytes-lt m = omega arith

get_pieces_count-lt : (m : TorrentMetainfo) → get_pieces_count m < 2 ^ 32
unfolding get_pieces_count
get_pieces_count-lt m = omega arith

tests_pass :
    (count size whole total : ℕ)
    → ltb 0 count && (ltb 0 size && (ltb whole total && leb (total - whole) size)) ≡ true
    → (0 < count) × (0 < size) × (whole < total) × (total - whole ≤ size)
tests_pass count size whole total h =
    (ground (arith, h), ground (arith, h), ground (arith, h), ground (arith, h))

sizes_fit :
    (client : TorrentClient) (total : ℕ)
    → get_total_size_bytes client.metainfo.length_or_files ≡ some total
    → sizes_make_sense
        (get_pieces_count client.metainfo)
        (get_piece_size_bytes client.metainfo)
        total
      ≡ true
    → SizesFit client
unfolding sizes_make_sense
sizes_fit client total e h =
    let size : ℕ = get_piece_size_bytes client.metainfo in
    let count : ℕ = get_pieces_count client.metainfo in
    let p : size * (count - 1) < 2 ^ 64 =
      product_lt size (count - 1) (get_piece_size_bytes-lt client.metainfo)
        (omega (arith, get_pieces_count-lt client.metainfo)) in
    let w : size * (count - 1) % 2 ^ 64 ≡ size * (count - 1) = omega arith in
    let passed = tests_pass count size (size * (count - 1) % 2 ^ 64) total h in
    record {
      total = total;
      has_total = e;
      some_pieces = passed.0;
      some_bytes = passed.1;
      before_last = subst (λ x. x < total) w passed.2;
      last_fits = subst (λ x. total - x ≤ size) w passed.3;
    }

checked_fits :
    (client made : TorrentClient) (o : Option ℕ)
    → get_total_size_bytes client.metainfo.length_or_files ≡ o
    → checked client o ≡ some (ok made)
    → SizesFit made
checked_fits client made none e h = cc
checked_fits client made (some total) e h =
    elim (Bool-cases (
      sizes_make_sense (get_pieces_count client.metainfo) (get_piece_size_bytes client.metainfo)
        total)) [
          | inl c ↦
              let h' : some (ok client) ≡ some (ok made) = rw (c) at h in
              let same : client ≡ made = cc in subst SizesFit same (sizes_fit client total e c)
          | inr c ↦ (let h' : none ≡ some (ok made) = rw (c) at h in cc)
        ]

with_state_fits :
    {W : Type 0} (client made : TorrentClient) (o : Option (Result MakeError TorrentClient))
    (w w' : W)
    → checked client (get_total_size_bytes client.metainfo.length_or_files) ≡ o
    → with_state o w ≡ some (ok made, w')
    → SizesFit made
with_state_fits client made none w w' e h = cc
with_state_fits client made (some r) w w' e h =
    checked_fits client made (get_total_size_bytes client.metainfo.length_or_files) refl (cc)

module _ {W : Type 0} (random : W → ℕ × W) (digest : List ℕ → List ℕ) where
  make_client_fits :
      (m : TorrentMetainfo) (view : Option (List ℕ)) (id : Option (List ℕ × W))
      (made : TorrentClient) (w : W)
      → make_client random digest m view id ≡ some (ok made, w)
      → SizesFit made
  make_client_fits m none id made w h = cc
  make_client_fits m (some info) none made w h = cc
  make_client_fits m (some info) (some (peer_id, w₀)) made w h =
      let client : TorrentClient = record {
        metainfo = m;
        info_hash = get_sha1 digest info;
        peer_id = peer_id;
      } in
      with_state_fits client made (checked client (get_total_size_bytes m.length_or_files)) w₀ w
        refl h

  make_parsed_fits :
      (buffer : List ℕ) (r : Result ContentError TorrentFileInfo) (w w' : W) (made : TorrentClient)
      → make_parsed random digest buffer r w ≡ some (ok made, w')
      → SizesFit made
  make_parsed_fits buffer (err e) w w' made h = cc
  make_parsed_fits buffer (ok torrent) w w' made h =
      make_client_fits torrent.metainfo
        (as_string_view buffer torrent.info_position.start torrent.info_position.end)
        (get_random_peer_id random w) made w' h

  make_fits :
      (buffer : Option (List ℕ)) (w w' : W) (made : TorrentClient)
      → make random digest buffer w ≡ some (ok made, w')
      → SizesFit made
  unfolding make
  make_fits none w w' made h = cc
  make_fits (some buffer) w w' made h =
      make_parsed_fits buffer (parse_torrent_file_content buffer) w w' made h

  -- When TorrentClient::make gives a client, the torrent has pieces, the piece size is not zero, the total size
  -- is known, and in the PiecesToDownload that `main` sets up of the client every piece has the piece size but
  -- the last, which has the rest, which is not zero and not above the piece size.
  pub make-get_piece_size :
      (buffer : Option (List ℕ)) (w w' : W) (client : TorrentClient) (index : ℕ)
      → make random digest buffer w ≡ some (ok client, w')
      → index < get_pieces_count client.metainfo
      → (total : ℕ) × (get_total_size_bytes client.metainfo.length_or_files ≡ some total)
        × (0 < get_pieces_count client.metainfo)
        × (0 < get_piece_size_bytes client.metainfo)
        × (0
            < total - get_piece_size_bytes client.metainfo * (get_pieces_count client.metainfo - 1))
        × (total - get_piece_size_bytes client.metainfo * (get_pieces_count client.metainfo - 1)
            ≤ get_piece_size_bytes client.metainfo)
        × (get_piece_size (pieces_of client.metainfo total) index
            ≡ some (
                if index + 1 == get_pieces_count client.metainfo
                then total
                  - get_piece_size_bytes client.metainfo * (get_pieces_count client.metainfo - 1)
                else get_piece_size_bytes client.metainfo))
  unfolding pieces_of
  make-get_piece_size buffer w w' client index h i =
      let fit : SizesFit client = make_fits buffer w w' client h in
      (
        fit.total,
        fit.has_total,
        fit.some_pieces,
        fit.some_bytes,
        omega (arith, fit.before_last),
        fit.last_fits,
        get_piece_size_lem (pieces_of client.metainfo fit.total) index i
            (get_pieces_count-lt client.metainfo) (get_piece_size_bytes-lt client.metainfo)
            fit.before_last (omega (arith, fit.before_last, fit.last_fits)),
      )
