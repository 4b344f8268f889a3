-- ===== src/Torrent/Content.antt =====
-- ParseTorrentFileContent: what holds of the torrent it returns.
use bittorrent_client.Base.{
  bytes_eq, ℕ, zero, suc, ◌+◌, ◌-◌, ◌≡◌, refl, sym, ap, ap₂, ◌∙◌, subst, Bool, true, false, ◌||◌,
  none, some, List, [], ◌∷◌, ◌++◌, append_assoc, Result, ok, err, Ensures, holds, rejected,
  Ensures-bind, Ensures-if, Ensures-mono, length, take, drop, take-append, drop-append, arith, ◌==◌,
  All, Option-cases, inl, inr,
}
use bittorrent_client.Bencode.Elements.{
  ElementPosition, ElementRef, DictionaryRef, dictionary, position, element,
}
use bittorrent_client.Bencode.Cursor.{
  Failure, Reported, parse_error, address_overflow, assertion_failed, out_of_fuel,
}
use bittorrent_client.Bencode.Grammar.{Encodes, span}
use bittorrent_client.Bencode.Parser.{parse_dictionary_only}
use bittorrent_client.Bencode.Entry.{BeginsWith, parse_dictionary_only-Ensures}
use bittorrent_client.Torrent.Values.{IsCode, code_result}
use bittorrent_client.Torrent.Keys.{KeyParser, mark, invoke_all}
use bittorrent_client.Torrent.Metainfo.{TorrentMetainfo, empty_metainfo}
use bittorrent_client.Torrent.File.{
  is_complete, parse_info, key_info, file_parsers, TorrentFileInfo, tracked_at, finish_content,
  parse_torrent_file_content,
}
use bittorrent_client.Torrent.Invoke.{
  AllValues, Ran, IsGood, invoke_all-Ensures, At, after, invoke_all-At, first_value,
}
use bittorrent_client.Torrent.Encoded.{IsEncoded, entries-IsEncoded, entries-first_value}
use bittorrent_client.Torrent.Valid.{IsSound}
use bittorrent_client.Torrent.Tables.{
  both, InfoDue, file_parsers-Keeps, empty_metainfo-IsSound, file_parsers-Ran,
}

-- The parser of "info" before the loop, and what it tracks.
abbrev info_parser : KeyParser TorrentMetainfo
info_parser = record {
  key = key_info;
  parse = parse_info;
  parsed = false;
  tracked = some (record { start = 0; end = 0 });
}

file_parsers-At : At key_info 1 file_parsers info_parser
unfolding file_parsers bytes_eq
file_parsers-At = (refl, (refl, refl))

abbrev tracked_or : KeyParser TorrentMetainfo → ElementPosition
tracked_or p = elim p.tracked [ some q ↦ q | none ↦ record { start = 0; end = 0 } ]

tracked_at-At :
    (key : List ℕ) (n : ℕ) (ps : List (KeyParser TorrentMetainfo)) (p : KeyParser TorrentMetainfo)
    → At key n ps p
    → tracked_at n ps ≡ tracked_or p
unfolding tracked_at
tracked_at-At key n [] p at = elim at [ ]
tracked_at-At key zero (q ∷ ps) p at = ap tracked_or at.0
tracked_at-At key (suc n) (q ∷ ps) p at = tracked_at-At key n ps p at.1

-- At a parser that ran, what it had to establish holds.
Ran-At :
    (key : List ℕ) (n : ℕ) (ps : List (KeyParser TorrentMetainfo)) (p : KeyParser TorrentMetainfo)
    (m : TorrentMetainfo)
    → At key n ps p
    → All (Ran IsSound InfoDue IsEncoded m) ps
    → Ran IsSound InfoDue IsEncoded m p
Ran-At key n [] p m at ran = elim at [ ]
Ran-At key zero (q ∷ ps) p m at ran =
    subst (λ (x : KeyParser TorrentMetainfo). Ran IsSound InfoDue IsEncoded m x) at.0 ran.0
Ran-At key (suc n) (q ∷ ps) p m at ran = Ran-At key n ps p m at.1 ran.1

-- The torrent's file is that of the dictionary `d`.
abbrev IsTorrentOf : DictionaryRef → TorrentFileInfo → Type 0
IsTorrentOf d info =
    IsSound info.metainfo
    × (is_complete info.metainfo ≡ true)
    × ((e : ElementRef) × (first_value key_info d ≡ some e) × (position e ≡ info.info_position))

finish_content-Ensures :
    (d : DictionaryRef) (ps : List (KeyParser TorrentMetainfo)) (m : TorrentMetainfo)
    → IsGood IsSound InfoDue IsEncoded (ps, m)
    → At key_info 1 ps (after info_parser d)
    → Ensures IsCode (IsTorrentOf d) (finish_content (ps, m))
unfolding finish_content
finish_content-Ensures d ps m (_, ran, sound) at =
    let test : Bool = (tracked_at 0 ps).end == 0 || (tracked_at 1 ps).end == 0 in
    elim (Option-cases (first_value key_info d)) [
      | inl none_found ↦
          let unset : tracked_at 1 ps ≡ record { start = 0; end = 0 } =
            tracked_at-At key_info 1 ps (after info_parser d) at ∙ rw none_found refl in
          let at_zero : (tracked_at 1 ps).end ≡ 0 = ap (λ (p : ElementPosition). p.end) unset in
          let missing : test ≡ true = ground (arith, at_zero) in rw missing (rejected tt)
      | inr (e, found) ↦
          let is_marked : after info_parser d ≡ mark info_parser e = rw found refl in
          let at' : At key_info 1 ps (mark info_parser e) =
            subst (λ (x : KeyParser TorrentMetainfo). At key_info 1 ps x) is_marked at in
          Ensures-if test (λ _. rejected tt)
            (λ _. holds (
              sound,
              Ran-At key_info 1 ps (mark info_parser e) m at' ran refl refl,
              (e, found, sym (tracked_at-At key_info 1 ps (mark info_parser e) at')),
            ))
    ]

pub code_result-Ensures :
    {P : DictionaryRef → Type 0} (r : Result Failure DictionaryRef)
    → Ensures Reported P r
    → Ensures IsCode (λ d. P d × (r ≡ ok d)) (code_result r)
code_result-Ensures (ok d) (holds h) = holds (h, refl)
code_result-Ensures (err (parse_error i)) (rejected h) = rejected tt
code_result-Ensures (err (address_overflow n)) (rejected h) = rejected h
code_result-Ensures (err assertion_failed) (rejected h) = elim h [ ]
code_result-Ensures (err out_of_fuel) (rejected h) = elim h [ ]

-- The values of a dictionary that was parsed.
pub values-IsEncoded :
    (content : List ℕ) (d : DictionaryRef)
    → BeginsWith content (dictionary d)
    → AllValues IsEncoded d
values-IsEncoded content d (s, r, line, (body, encs, e)) = entries-IsEncoded d (0 + 1) body encs

-- The bytes of the content at a position.
abbrev pub slice : ElementPosition → List ℕ → List ℕ
slice p content = take (p.end - p.start) (drop p.start content)

slice-span :
    (before value behind : List ℕ)
    → slice (span (length before) value) (before ++ (value ++ behind)) ≡ value
slice-span before value behind =
    rw (drop-append before (value ++ behind))
      (ap (λ (n : ℕ). take n (value ++ behind)) (omega arith) ∙ take-append value behind)

Encodes-slice :
    (content : List ℕ) (e : ElementRef) (before value behind : List ℕ)
    → content ≡ before ++ (value ++ behind)
    → Encodes e (length before) value
    → Encodes e ((position e).start) (slice (position e) content)
unfolding position
Encodes-slice content (element st p) before value behind line enc =
    let start_eq : length before ≡ p.start = sym (ap (λ (q : ElementPosition). q.start) enc.0) in
    let slice_eq : value ≡ slice p content =
      sym (ap₂ slice enc.0 line ∙ slice-span before value behind) in
    subst (λ (n : ℕ). Encodes (element st p) n (slice p content)) start_eq
      (subst (λ (t : List ℕ). Encodes (element st p) (length before) t) slice_eq enc)

-- The first value of a key encodes the bytes of the content at its position.
pub first_value-slice :
    (content key : List ℕ) (d : DictionaryRef) (e : ElementRef)
    → BeginsWith content (dictionary d)
    → first_value key d ≡ some e
    → Encodes e ((position e).start) (slice (position e) content)
first_value-slice content key d e (s, r, line, (body, encs, same)) h =
    let (before, value, behind, line', enc) = entries-first_value key d (0 + 1) body e encs h in
    let text : content ≡ (b'd' ∷ before) ++ (value ++ (behind ++ (b'e' ∷ r))) =
      line
      ∙ ap (λ (t : List ℕ). t ++ r) same
      ∙ ap (λ (t : List ℕ). b'd' ∷ ((t ++ b'e' ∷ []) ++ r)) line'
      ∙ rw
          (
            append_assoc (before ++ (value ++ behind)) (b'e' ∷ []) r,
            append_assoc before (value ++ behind) (b'e' ∷ r),
            append_assoc value behind (b'e' ∷ r),
          )
          refl in
    Encodes-slice content e (b'd' ∷ before) value (behind ++ (b'e' ∷ r)) text
      (subst (λ (n : ℕ). Encodes e n value) (omega arith) enc)

abbrev pub IsParsed : List ℕ → TorrentFileInfo → Type 0
IsParsed content info =
    (d : DictionaryRef) × (parse_dictionary_only content ≡ ok d)
    × BeginsWith content (dictionary d)
    × IsTorrentOf d info

-- Parsing ends with a torrent that is sound and complete, or with an error code: never with a failed
-- assertion or a null pointer.
pub parse_torrent_file_content-Ensures :
    (content : List ℕ) → Ensures IsCode (IsParsed content) (parse_torrent_file_content content)
unfolding parse_torrent_file_content
parse_torrent_file_content-Ensures content =
    Ensures-bind
      (code_result-Ensures (parse_dictionary_only content) (parse_dictionary_only-Ensures content))
      λ d (begins, parsed).
        Ensures-bind
          (both (invoke_all file_parsers empty_metainfo d)
            (invoke_all-Ensures IsSound InfoDue IsEncoded file_parsers empty_metainfo d
              (file_parsers-Keeps, file_parsers-Ran empty_metainfo, empty_metainfo-IsSound)
              (values-IsEncoded content d begins))
            (invoke_all-At key_info 1 file_parsers info_parser empty_metainfo d file_parsers-At))
          λ (ps, m) (good, at).
            Ensures-mono (finish_content-Ensures d ps m good at) λ info h. (d, parsed, begins, h)
