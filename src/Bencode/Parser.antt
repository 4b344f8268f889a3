-- ===== src/Bencode/Parser.antt =====
-- `Parser` of src/bencoding/src/be_element_ref_parse.cpp: its recursive descent, on fuel, and the
-- entry points of be_element_ref_parse.h.
use bittorrent_client.Base.{
  ℕ, zero, suc, ◌+◌, ◌-◌, ◌*◌, Bool, ◌&&◌, ◌||◌, not, Option, none, some, List, [], ◌∷◌, Result, ok,
  err, ltb, ◌==◌, if◌then◌else◌, length,
}
use bittorrent_client.Bencode.Errors
use bittorrent_client.Bencode.Errors.{ParseErrorc}
use bittorrent_client.Bencode.Elements.{
  ElementId, View, ElementRef, ListRef, DictionaryRef, none_id, integer_id, string_id, list_id,
  dictionary_id, element, integer, string, list, dictionary, no_elements, add_element, no_entries,
  add_entry, as_integer, as_string, as_list, as_dictionary,
}
use bittorrent_client.Bencode.Length.{is_digit, parse_length}
use bittorrent_client.Bencode.Cursor.{
  Cursor, Failure, parse_error, assertion_failed, out_of_fuel, Parser, return, ◌>>=◌, ◌>>◌,
  make_error, has_data, at, advance, consume, consume_n, view_at, range,
}

-- The value of an accessor that the code asserts to be present.
abbrev pub asserted {ℓ} : {A : Type ℓ} → Option A → Parser A
asserted none c = err assertion_failed
asserted (some a) c = ok (a, c)

-- The loop of parse_integer: digits up to an 'e' or the end of the data.
unfoldable pub skip_integer : ℕ → List ℕ → Result Failure Cursor
skip_integer o [] = ok (record { offset = o; rest = [] })
skip_integer o (c ∷ cs) =
    if c == b'e'
    then ok (record { offset = o; rest = c ∷ cs })
    else (if is_digit c
        then skip_integer (o + 1) cs
        else err
            (parse_error (record { ec = Errors.bad_integer; offset = o; element = integer_id })))

-- The tests of parse_integer on the text between `begin` and `last`.
unfoldable pub is_bad_integer : Bool → Cursor → Cursor → Bool
unfolding at
is_bad_integer has_sign begin last =
    (begin.offset == last.offset)
    || (has_sign && (last.offset == begin.offset + 1))
    || (has_sign && at b'0' (advance 1 begin))
    || (at b'0' begin && ltb (begin.offset + 1) last.offset)

-- The cursor at which a loop stops.
abbrev pub stop_at : Result Failure Cursor → Result Failure (Cursor × Cursor)
stop_at (ok last) = ok (last, last)
stop_at (err e) = err e

abbrev pub skip_to_end : Cursor → Parser Cursor
skip_to_end from c = stop_at (skip_integer from.offset from.rest)

abbrev pub after_sign : Bool → Cursor → Cursor
after_sign has_sign begin = if has_sign then advance 1 begin else begin

abbrev pub here : Parser Cursor
here c = ok (c, c)

abbrev pub fail_if : Bool → ElementId → ParseErrorc → Parser (Unit {0})
fail_if b id e c = if b then make_error id e c else ok (tt, c)

unfoldable pub parse_integer : Parser ElementRef
unfolding consume at skip_integer is_bad_integer
parse_integer = do
  start ← here
  consume b'i' integer_id Errors.missing_integer_start
  begin ← here
  last ← skip_to_end (after_sign (at b'-' begin) begin)
  consume b'e' integer_id Errors.bad_integer
  fail_if (is_bad_integer (at b'-' begin) begin last) integer_id Errors.bad_integer
  stop ← here
  return (element (integer (view_at begin (last.offset - begin.offset))) (range start stop))

-- The loop of parse_string_length: digits up to a ':' or the end of the data.
unfoldable pub skip_length : ℕ → List ℕ → Result Failure Cursor
skip_length o [] = ok (record { offset = o; rest = [] })
skip_length o (c ∷ cs) =
    if is_digit c
    then skip_length (o + 1) cs
    else (if c == b':'
        then ok (record { offset = o; rest = c ∷ cs })
        else err (
            parse_error
              (record { ec = Errors.unexpected_string_length; offset = o; element = string_id })))

abbrev pub skip_to_colon : Parser Cursor
skip_to_colon c = stop_at (skip_length c.offset c.rest)

unfoldable pub parse_string_length : Parser ElementRef
unfolding skip_length consume
parse_string_length = do
  begin ← here
  last ← skip_to_colon
  fail_if (begin.offset == last.offset) string_id Errors.unexpected_string_length
  consume b':' string_id Errors.missing_string_start
  stop ← here
  return (element (integer (view_at begin (stop.offset - begin.offset - 1))) (range begin stop))

abbrev pub length_or_fail : Option ℕ → Parser ℕ
length_or_fail none = make_error string_id Errors.bad_string_length
length_or_fail (some n) = return n

unfoldable pub parse_string : ℕ → Parser ElementRef
unfolding parse_string_length as_integer consume_n
parse_string total = do
  start ← here
  length_element ← parse_string_length
  digits ← asserted (as_integer length_element)
  count ← length_or_fail (parse_length digits.bytes)
  begin ← here
  consume_n total count string_id Errors.string_out_of_bound
  stop ← here
  return (element (string (view_at begin count)) (range start stop))

-- parse_list around its loop.
unfoldable pub parse_list_by : Parser ListRef → Parser ElementRef
unfolding consume
parse_list_by loop = do
  start ← here
  consume b'l' string_id Errors.missing_list_start
  elements ← loop
  consume b'e' string_id Errors.missing_list_end
  stop ← here
  return (element (list elements) (range start stop))

-- parse_dictionary around its loop.
unfoldable pub parse_dictionary_by : Parser DictionaryRef → Parser ElementRef
unfolding consume
parse_dictionary_by loop = do
  start ← here
  consume b'd' dictionary_id Errors.missing_dictionary_start
  entries ← loop
  consume b'e' dictionary_id Errors.missing_dictionary_end
  stop ← here
  return (element (dictionary entries) (range start stop))

abbrev pub key_or_fail : Option View → Parser View
key_or_fail none = make_error dictionary_id Errors.non_string_as_dictionary_key
key_or_fail (some k) = return k

-- `has_data() && (*current_ != k_element_end)`.
unfoldable pub more : Cursor → Bool
unfolding has_data at
more c = has_data c && not (at b'e' c)

-- The switch of parse_element on the byte at `current_`.
unfoldable pub dispatch :
    ℕ → ElementId → Parser ListRef → Parser DictionaryRef → List ℕ → Parser ElementRef
unfolding parse_integer parse_list_by parse_dictionary_by parse_string
dispatch total parent_id elements entries [] = make_error parent_id Errors.unexpected_end
dispatch total parent_id elements entries (c ∷ cs) =
    if c == b'i'
    then parse_integer
    else (if c == b'l'
        then parse_list_by elements
        else (if c == b'd' then parse_dictionary_by entries else parse_string total))

-- parse_element, and the loops of parse_list and parse_dictionary. What a call leaves of the data is
-- no structural part of it, so each call costs a unit of fuel.
module _ (total : ℕ) where
  unfoldable mutual
    unfolding dispatch more as_string

    pub parse_element : ℕ → ElementId → Parser ElementRef
    parse_element zero parent_id c = err out_of_fuel
    parse_element (suc f) parent_id c =
        dispatch total parent_id (parse_elements f) (parse_entries f) c.rest c

    pub parse_elements : ℕ → Parser ListRef
    parse_elements zero c = err out_of_fuel
    parse_elements (suc f) c =
        let next : Parser ListRef = do
          e ← parse_element f list_id
          es ← parse_elements f
          return (add_element e es)
        in if more c then next c else ok (no_elements, c)

    pub parse_entries : ℕ → Parser DictionaryRef
    parse_entries zero c = err out_of_fuel
    parse_entries (suc f) c =
        let next : Parser DictionaryRef = do
          key ← parse_element f dictionary_id
          k ← key_or_fail (as_string key)
          value ← parse_element f dictionary_id
          rest ← parse_entries f
          return (add_entry k value rest)
        in if more c then next c else ok (no_entries, c)

-- `Parser(bencoded.data(), bencoded.size())`.
abbrev pub start_of : List ℕ → Cursor
start_of bencoded = record { offset = 0; rest = bencoded }

-- Two units of fuel for each byte, and some for the outermost calls, are enough.
abbrev pub fuel_for : List ℕ → ℕ
fuel_for bencoded = 2 * length bencoded + 3

abbrev pub with_element :
    Result Failure (ElementRef × Cursor)
    → (ElementRef → Cursor → Result Failure ListRef)
    → Result Failure ListRef
with_element (ok (e, c)) f = f e c
with_element (err x) f = err x

abbrev pub push_front : ElementRef → Result Failure ListRef → Result Failure ListRef
push_front e (ok es) = ok (add_element e es)
push_front e (err x) = err x

-- The loop of Parse: at least one element, and more while there is data.
unfoldable pub parse_all : ℕ → ℕ → Cursor → Result Failure ListRef
unfolding parse_element has_data
parse_all total zero c = err out_of_fuel
parse_all total (suc f) c = with_element (parse_element total (suc f) none_id c) λ e c'.
    let rest = parse_all total f c' in
    if has_data c' then push_front e rest else ok (add_element e no_elements)

unfoldable pub parse : List ℕ → Result Failure ListRef
unfolding parse_all
parse bencoded = parse_all (length bencoded) (fuel_for bencoded) (start_of bencoded)

abbrev pub drop_cursor {ℓ} : {A : Type ℓ} → Result Failure (A × Cursor) → Result Failure A
drop_cursor (ok (a, _)) = ok a
drop_cursor (err e) = err e

abbrev pub finish {ℓ} : {A : Type ℓ} → Parser A → Cursor → Result Failure A
finish p c = drop_cursor (p c)

unfoldable pub parse_string_only : List ℕ → Result Failure View
unfolding parse_string as_string
parse_string_only bencoded =
    finish (parse_string (length bencoded) >>= λ e. asserted (as_string e)) (start_of bencoded)

unfoldable pub parse_integer_only : List ℕ → Result Failure View
unfolding parse_integer as_integer
parse_integer_only bencoded =
    finish (parse_integer >>= λ e. asserted (as_integer e)) (start_of bencoded)

unfoldable pub parse_list_only : List ℕ → Result Failure ListRef
unfolding parse_list_by parse_element as_list
parse_list_only bencoded =
    finish
      (parse_list_by (parse_elements (length bencoded) (fuel_for bencoded)) >>= λ e.
        asserted (as_list e))
      (start_of bencoded)

unfoldable pub parse_dictionary_only : List ℕ → Result Failure DictionaryRef
unfolding parse_dictionary_by parse_element as_dictionary
parse_dictionary_only bencoded =
    finish
      (parse_dictionary_by (parse_entries (length bencoded) (fuel_for bencoded)) >>= λ e.
        asserted (as_dictionary e))
      (start_of bencoded)
