-- ===== src/Examples/Parsing.antt =====
-- The theorems on bencoded data, at small data.
use bittorrent_client.Base.{err, ◌≡◌, ◌↔◌, ◌⊎◌, refl, ◌∷◌, ◌++◌, ok, some, Ensures, arith}
use bittorrent_client.Bencode.Elements.{
  IsWhole, whole, DictionaryRef, ListRef, no_entries, add_entry, no_elements, add_element, element,
  integer, string, list, dictionary,
}
use bittorrent_client.Bencode.Length.{
  IsLength, decimal_from, parse_length, parse_length_sound, is_digit,
}
use bittorrent_client.Bencode.Cursor.{Reported, address_overflow}
use bittorrent_client.Bencode.Refused.{parse_string_only-refused}
use bittorrent_client.Bencode.Grammar.{EncodesAll}
use bittorrent_client.Bencode.Parser.{
  parse, parse_string_only, parse_integer_only, parse_list_only, parse_dictionary_only,
}
use bittorrent_client.Bencode.Entry.{
  BeginsWith, parse_dictionary_only_iff, parse_list_only_iff, parse_integer_only_iff,
}
use bittorrent_client.Bencode.Overrun.{
  StringAtFront, parse_string_only_iff, parse_string_only-past_end, LastOverruns, parse_total,
}
use bittorrent_client.Examples.{codes}

abbrev one_entry : DictionaryRef
one_entry =
    add_entry (whole (codes "a"))
      (element (integer (whole (codes "7"))) (record { start = 4; end = 7 })) no_entries

abbrev one_element : ListRef
one_element =
    add_element (element (string (whole (codes "ab"))) (record { start = 1; end = 5 })) no_elements

parse_dictionary_only_iff_example :
    (parse_dictionary_only (codes "d1:ai7ee!") ≡ ok one_entry)
    ↔ BeginsWith (codes "d1:ai7ee!") (dictionary one_entry)
parse_dictionary_only_iff_example = parse_dictionary_only_iff (codes "d1:ai7ee!") one_entry

parse_list_only_iff_example :
    (parse_list_only (codes "l2:abe") ≡ ok one_element)
    ↔ BeginsWith (codes "l2:abe") (list one_element)
parse_list_only_iff_example = parse_list_only_iff (codes "l2:abe") one_element

parse_integer_only_iff_example :
    (parse_integer_only (codes "i-42e") ≡ ok (whole (codes "-42")))
    ↔ BeginsWith (codes "i-42e") (integer (whole (codes "-42")))
parse_integer_only_iff_example = parse_integer_only_iff (codes "i-42e") (whole (codes "-42"))

parse_string_only_iff_example :
    (parse_string_only (codes "3:str") ≡ ok (whole (codes "str")))
    ↔ StringAtFront (codes "3:str") (whole (codes "str"))
parse_string_only_iff_example = parse_string_only_iff (codes "3:str") (whole (codes "str"))

three : IsLength (codes "3") 3
unfolding is_digit decimal_from
three = record { digits = (refl, tt); some_digit = omega arith; value = refl; fits = omega arith }

parse_string_only-past_end_example :
    (parse_string_only (codes "3" ++ b':' ∷ codes "st")
      ≡ ok (record { size = 3; bytes = codes "st" }))
    × ¬ IsWhole (record { size = 3; bytes = codes "st" })
parse_string_only-past_end_example =
    parse_string_only-past_end (codes "3") (codes "st") 3 three (omega arith) (omega arith)

reads_huge : parse_length (codes "18446744073709551614") ≡ some 18446744073709551614
unfolding parse_length is_digit
reads_huge = refl

huge : IsLength (codes "18446744073709551614") 18446744073709551614
huge = parse_length_sound (codes "18446744073709551614") 18446744073709551614 reads_huge

parse_string_only-refused_example :
    parse_string_only (codes "18446744073709551614:st")
    ≡ err (address_overflow 18446744073709551614)
parse_string_only-refused_example =
    parse_string_only-refused (codes "18446744073709551614") (codes "st") 18446744073709551614 huge
      (omega arith)

parse_total_example :
    Ensures Reported
      (λ es. EncodesAll es 0 (codes "i1e2:ab") ⊎ LastOverruns es)
      (parse (codes "i1e2:ab"))
parse_total_example = parse_total (codes "i1e2:ab")

reads_12 : parse_length (codes "12") ≡ some 12
unfolding parse_length is_digit
reads_12 = refl

parse_length_sound_example : IsLength (codes "12") 12
parse_length_sound_example = parse_length_sound (codes "12") 12 reads_12
