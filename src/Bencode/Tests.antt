-- ===== src/Bencode/Tests.antt =====
-- The inputs of src/test_bencoding/test_be_parse.cpp, and some more, run through the parser.
use bittorrent_client.Base.{ℕ, ◌≡◌, refl, List, [], ◌∷◌, ok, err}
use bittorrent_client.Bencode.Errors
use bittorrent_client.Bencode.Elements.{
  whole, no_entries, add_entry, element, string, integer_id, none_id, string_id,
}
use bittorrent_client.Bencode.Length.{is_digit, parse_length}
use bittorrent_client.Bencode.Cursor.{parse_error, address_overflow}
use bittorrent_client.Bencode.Parser.{
  parse, parse_string_only, parse_integer_only, parse_dictionary_only,
}
use Prim.Native.String.{String}
use Prim.Native.Char.{code}

abbrev codes : String → List ℕ
codes String.[] = []
codes (String.◌∷◌ c s) = code c ∷ codes s

empty_is_unexpected_end :
    parse []
    ≡ err (parse_error (record { ec = Errors.unexpected_end; offset = 0; element = none_id }))
unfolding parse
empty_is_unexpected_end = refl

string_of_three : parse_string_only (codes "3:str") ≡ ok (whole (codes "str"))
unfolding parse_string_only parse_length is_digit
string_of_three = refl

too_long_string :
    parse_string_only (codes "10:s")
    ≡ err
        (parse_error (record { ec = Errors.string_out_of_bound; offset = 3; element = string_id }))
unfolding parse_string_only parse_length is_digit
too_long_string = refl

-- The machine's sum of the buffer's address and this length is below the buffer.
huge_length :
    parse_dictionary_only (codes "d18446744073709551614:abcde")
    ≡ err (address_overflow 18446744073709551614)
unfolding parse_dictionary_only parse_length is_digit
huge_length = refl

-- A string that is one byte short is read all the same: its view runs past the buffer.
overrunning_string : parse_string_only (codes "3:st") ≡ ok (record { size = 3; bytes = codes "st" })
unfolding parse_string_only parse_length is_digit
overrunning_string = refl

negative_number : parse_integer_only (codes "i-123e") ≡ ok (whole (codes "-123"))
unfolding parse_integer_only is_digit
negative_number = refl

leading_zero :
    parse_integer_only (codes "i03e")
    ≡ err (parse_error (record { ec = Errors.bad_integer; offset = 4; element = integer_id }))
unfolding parse_integer_only is_digit
leading_zero = refl

strings_dictionary :
    parse_dictionary_only (codes "d3:cow3:moo4:spam4:eggse")
    ≡ ok (
        add_entry
          (whole (codes "cow"))
          (element (string (whole (codes "moo"))) (record { start = 6; end = 11 }))
          (add_entry
            (whole (codes "spam"))
            (element (string (whole (codes "eggs"))) (record { start = 17; end = 23 }))
            no_entries))
unfolding parse_dictionary_only parse_length is_digit
strings_dictionary = refl
