-- ===== src/Torrent/Values.antt =====
-- src/bencoding/include/bencoding/be_parse_utils.h: an element as one of its kinds, and an integer
-- as a number.
use bittorrent_client.Base.{ℕ, Option, none, some, Result, ok, err}
use bittorrent_client.Bencode.Errors.{
  ParseErrorc, not_string, not_integer, not_list, not_dictionary, invalid_integer,
}
use bittorrent_client.Bencode.Elements.{
  View, ElementRef, ListRef, DictionaryRef, as_string, as_integer, as_list, as_dictionary,
}
use bittorrent_client.Bencode.Length.{parse_length}
use bittorrent_client.Bencode.Cursor.{Failure, parse_error, IsOverflow}

-- An error code, or what the program does not report: a failed assertion of the parser, an address that
-- overflows there, and a null pointer that is read.
pub data ContentError : Type 0 where
  invalid : ParseErrorc → ContentError
  unreported : Failure → ContentError
  null_pointer : ContentError

-- The program reports it, or the model ends at an address that may overflow.
abbrev pub IsCode : ContentError → Type 0
IsCode (invalid e) = Unit {0}
IsCode (unreported f) = IsOverflow f
IsCode null_pointer = ⊥

-- The error code of what ParseDictionary returns.
abbrev pub code_of : Failure → ContentError
code_of (parse_error i) = invalid i.ec
code_of f = unreported f

abbrev pub code_result {ℓ} : {A : Type ℓ} → Result Failure A → Result ContentError A
code_result (ok a) = ok a
code_result (err f) = err (code_of f)

abbrev pub or_fail {ℓ} : {A : Type ℓ} → Option A → ContentError → Result ContentError A
or_fail (some a) e = ok a
or_fail none e = err e

-- ElementRefAs<T> for the four kinds.
unfoldable pub element_as_string : ElementRef → Result ContentError View
unfolding as_string
element_as_string e = or_fail (as_string e) (invalid not_string)

unfoldable pub element_as_integer : ElementRef → Result ContentError View
unfolding as_integer
element_as_integer e = or_fail (as_integer e) (invalid not_integer)

unfoldable pub element_as_list : ElementRef → Result ContentError ListRef
unfolding as_list
element_as_list e = or_fail (as_list e) (invalid not_list)

unfoldable pub element_as_dictionary : ElementRef → Result ContentError DictionaryRef
unfolding as_dictionary
element_as_dictionary e = or_fail (as_dictionary e) (invalid not_dictionary)

unfoldable pub parse_as_uint64 : View → Result ContentError ℕ
parse_as_uint64 n = or_fail (parse_length n.bytes) (invalid invalid_integer)
