-- ===== src/Torrent/Keys.antt =====
-- KeyParser and InvokeParserOptionalKey, of be_torrent_file_parse.cpp and be_tracker_response_parse.cpp:
-- a table of parsers that share a state, and each of which runs for the first entry with its key.
use bittorrent_client.Base.{
  ℕ, Bool, true, ◌||◌, not, Option, none, some, List, [], ◌∷◌, Result, ok, ◌>>=◌, bytes_eq,
  if◌then◌else◌,
}
use bittorrent_client.Bencode.Elements.{
  ElementPosition, ElementRef, DictionaryRef, no_entries, add_entry, position,
}
use bittorrent_client.Torrent.Values.{ContentError}

-- `tracked` is none where `position_` is null, and what it points to elsewhere.
pub record KeyParser (S : Type 0) : Type 0 where
  pub key : List ℕ
  pub parse : S → ElementRef → Result ContentError S
  pub parsed : Bool
  pub tracked : Option ElementPosition

abbrev pub track : Option ElementPosition → ElementRef → Option ElementPosition
track none e = none
track (some p) e = some (position e)

module _ {S : Type 0} where
  -- The parser does not take this key: `state.parsed_ || key != state.key_`.
  abbrev pub skips : KeyParser S → List ℕ → Bool
  skips p key = p.parsed || not (bytes_eq key p.key)

  abbrev pub mark : KeyParser S → ElementRef → KeyParser S
  mark p value = record p { parsed = true; tracked = track p.tracked value }

  -- InvokeParserOptionalKey: the table and the state after it.
  unfoldable pub invoke_parser_optional_key :
      List (KeyParser S) → S → List ℕ → ElementRef → Result ContentError (List (KeyParser S) × S)
  invoke_parser_optional_key [] s key value = ok ([], s)
  invoke_parser_optional_key (p ∷ ps) s key value =
      let others = invoke_parser_optional_key ps s key value in
      if skips p key
      then (others >>= λ (ps', s'). ok (p ∷ ps', s'))
      else (p.parse s value >>= λ s'. ok (mark p value ∷ ps, s'))

  -- The loop over the entries of a dictionary.
  unfoldable pub invoke_all :
      List (KeyParser S) → S → DictionaryRef → Result ContentError (List (KeyParser S) × S)
  invoke_all ps s no_entries = ok (ps, s)
  invoke_all ps s (add_entry name e d) =
      invoke_parser_optional_key ps s name.bytes e >>= λ (ps', s'). invoke_all ps' s' d
