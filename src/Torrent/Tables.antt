-- ===== src/Torrent/Tables.antt =====
-- The two tables of parsers of be_torrent_file_parse.cpp: each parser keeps the metainfo sound, and that of
-- "info" leaves it complete.
use bittorrent_client.Base.{
  ℕ, ◌<◌, ◌≡◌, ◌≢◌, refl, true, List, Result, ok, err, Ensures, holds, rejected, Ensures-bind,
  Ensures-if, Ensures-mono, length, arith, ◌==◌, All,
}
use bittorrent_client.Bencode.Elements.{ElementRef}
use bittorrent_client.Torrent.Values.{ContentError, IsCode}
use bittorrent_client.Torrent.Metainfo.{
  TorrentMetainfo, parse_announce, parse_announce_list, empty_metainfo,
}
use bittorrent_client.Torrent.File.{
  is_complete, parse_info, info_parsers, key_info, key_announce, key_announce_list, file_parsers,
}
use bittorrent_client.Torrent.Invoke.{Keeps, Ran, invoke_all-Ensures, Ends}
use bittorrent_client.Torrent.Encoded.{
  IsEncoded, element_as_string-Ensures, element_as_list-Ensures, element_as_dictionary-Ensures,
}
use bittorrent_client.Torrent.Valid.{
  IsSound, parse_info_name-Ensures, parse_info_piece_length-Ensures, parse_info_pieces-Ensures,
  parse_info_length-Ensures, parse_info_files-Ensures,
}

-- Of the inner table no parser has something to establish.
abbrev NoneDue : List ℕ → TorrentMetainfo → Type 0
NoneDue key m = Unit {0}

keeps :
    {r : Result ContentError TorrentMetainfo}
    → Ensures IsCode IsSound r
    → Ensures IsCode (λ m. IsSound m × Unit {0} × (List ℕ → Unit {0} → Unit {0})) r
keeps h = Ensures-mono h λ m sound. (sound, tt, λ k x. tt)

info_parsers-Keeps : All (Keeps IsSound NoneDue IsEncoded) info_parsers
unfolding info_parsers
info_parsers-Keeps = (
  (λ m e h enc. keeps (parse_info_name-Ensures m e h enc)),
  (
    (λ m e h enc. keeps (parse_info_piece_length-Ensures m e h enc)),
    (
      (λ m e h enc. keeps (parse_info_pieces-Ensures m e h enc)),
      (
        (λ m e h enc. keeps (parse_info_length-Ensures m e h enc)),
        ((λ m e h enc. keeps (parse_info_files-Ensures m e h enc)), tt),
      ),
    ),
  ),
)

info_parsers-Ran : (m : TorrentMetainfo) → All (Ran IsSound NoneDue IsEncoded m) info_parsers
unfolding info_parsers
info_parsers-Ran m = ((λ _. tt), ((λ _. tt), ((λ _. tt), ((λ _. tt), ((λ _. tt), tt)))))

parse_info-Ensures :
    (m : TorrentMetainfo) (e : ElementRef)
    → IsSound m
    → IsEncoded e
    → Ensures IsCode (λ m'. IsSound m' × (is_complete m' ≡ true)) (parse_info m e)
unfolding parse_info
parse_info-Ensures m e h enc = Ensures-bind (element_as_dictionary-Ensures e enc) λ d all.
    Ensures-bind
      (invoke_all-Ensures IsSound NoneDue IsEncoded info_parsers m d
        (info_parsers-Keeps, info_parsers-Ran m, h) all)
      λ (ps, m') (_, _, sound).
        Ensures-if (is_complete m') (λ c. holds (sound, c)) (λ _. rejected tt)

-- Two properties of one result.
pub both :
    {A : Type 0} {P P' : A → Type 0} (r : Result ContentError A)
    → Ensures IsCode P r
    → Ends P' r
    → Ensures IsCode (λ a. P a × P' a) r
both (ok a) (holds h) (holds h') = holds (h, h')
both (err e) (rejected h) h' = rejected h

-- What the parser of "info" establishes.
abbrev pub InfoDue : List ℕ → TorrentMetainfo → Type 0
InfoDue key m = key ≡ key_info → is_complete m ≡ true

complete-announce :
    (m : TorrentMetainfo) (url : List ℕ)
    → 0 < length url
    → is_complete m ≡ true
    → is_complete (record m { tracker_url_utf8 = url }) ≡ true
unfolding is_complete
complete-announce m url h c = ground arith

announce_differs : key_announce ≢ key_info
announce_differs h = cc

list_differs : key_announce_list ≢ key_info
list_differs h = cc

pub file_parsers-Keeps : All (Keeps IsSound InfoDue IsEncoded) file_parsers
unfolding file_parsers parse_announce parse_announce_list is_complete
file_parsers-Keeps = (
  (λ m e h enc. Ensures-bind (element_as_string-Ensures e enc) λ str w.
      Ensures-if (str.size == 0) (λ _. rejected tt)
        (λ t. holds (
          record { hashes = h.hashes; piece_fits = h.piece_fits; sized = h.sized },
          (λ same. elim (announce_differs same) [ ]),
          λ k was same. complete-announce m str.bytes (ground arith) (was same),
        ))),
  (
    (λ m e h enc.
        Ensures-mono (parse_info-Ensures m e h enc)
          λ m' (sound, c). (sound, (λ _. c), λ k was same. c)),
    (
      (λ m e h enc. Ensures-bind (element_as_list-Ensures e enc) λ es _. holds (
        record { hashes = h.hashes; piece_fits = h.piece_fits; sized = h.sized },
        (λ same. elim (list_differs same) [ ]),
        λ k was. was,
      )),
      tt,
    ),
  ),
)

pub empty_metainfo-IsSound : IsSound empty_metainfo
unfolding empty_metainfo
empty_metainfo-IsSound = record { hashes = refl; piece_fits = omega arith; sized = tt }

pub file_parsers-Ran : (m : TorrentMetainfo) → All (Ran IsSound InfoDue IsEncoded m) file_parsers
unfolding file_parsers
file_parsers-Ran m = ((λ h. cc), ((λ h. cc), ((λ h. cc), tt)))
