-- ===== src/Bencode/Errors.antt =====
-- src/bencoding/include/bencoding/be_errors.h and src/bencoding/src/be_errors.cpp: error codes.
use bittorrent_client.Base.{ℕ}

pub data ParseErrorc : Type 0 where
  success : ParseErrorc
  unexpected_end unexpected_string_length bad_integer bad_string_length : ParseErrorc
  string_out_of_bound non_string_as_dictionary_key : ParseErrorc
  missing_list_start missing_list_end missing_dictionary_start missing_dictionary_end : ParseErrorc
  missing_integer_start missing_integer_end missing_string_start : ParseErrorc
  not_string not_integer not_dictionary not_list invalid_integer : ParseErrorc
  invalid_invariant empty_announce invalid_info_pieces_length_20 : ParseErrorc
  ambiguous_multi_or_single_torrent empty_multi_file_name : ParseErrorc
  missing_multi_file_property empty_multi_file missing_info_property : ParseErrorc
  impl_invalid_invariant invalid_peers_blob_length missing_required_property : ParseErrorc

-- The enumerators' values: each that has no initialiser is one above the last.
pub to_int : ParseErrorc → ℕ
to_int success = 0
to_int unexpected_end = 100
to_int unexpected_string_length = 101
to_int bad_integer = 102
to_int bad_string_length = 103
to_int string_out_of_bound = 104
to_int non_string_as_dictionary_key = 105
to_int missing_list_start = 106
to_int missing_list_end = 107
to_int missing_dictionary_start = 108
to_int missing_dictionary_end = 109
to_int missing_integer_start = 110
to_int missing_integer_end = 111
to_int missing_string_start = 112
to_int not_string = 113
to_int not_integer = 114
to_int not_dictionary = 115
to_int not_list = 116
to_int invalid_integer = 117
to_int invalid_invariant = 200
to_int empty_announce = 201
to_int invalid_info_pieces_length_20 = 202
to_int ambiguous_multi_or_single_torrent = 203
to_int empty_multi_file_name = 204
to_int missing_multi_file_property = 205
to_int empty_multi_file = 206
to_int missing_info_property = 207
to_int impl_invalid_invariant = 300
to_int invalid_peers_blob_length = 301
to_int missing_required_property = 302
