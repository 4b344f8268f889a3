-- ===== src/Bencode/Entry.antt =====
-- The entry points of be_element_ref_parse.h: exactly which data they accept, and what they return.
use bittorrent_client.Base.{
  ℕ, ◌+◌, ◌≡◌, ◌↔◌, refl, sym, ap, ◌∙◌, List, [], ◌∷◌, ◌++◌, Option, some, Result, ok, Ensures,
  holds, rejected, Ensures-ok, arith, length, length-append, subst,
}
use bittorrent_client.Bencode.Elements.{
  ElementPosition, View, whole, ElementRef, StorageRef, ListRef, DictionaryRef, element, integer,
  list, dictionary, as_integer, as_list, as_dictionary,
}
use bittorrent_client.Bencode.Cursor.{Cursor, Failure, Reported, range, then_parse}
use bittorrent_client.Bencode.Grammar.{Encodes, EncodesStorage, span}
use bittorrent_client.Bencode.Parser.{
  parse_integer, parse_list_by, parse_dictionary_by, parse_elements, parse_entries,
  parse_integer_only, parse_list_only, parse_dictionary_only, drop_cursor, asserted, start_of,
  fuel_for,
}
use bittorrent_client.Bencode.Sound.Scalars.{ReadsAs, parse_integer-Ensures}
use bittorrent_client.Bencode.Sound.Containers.{parse_list_by-Ensures, parse_dictionary_by-Ensures}
use bittorrent_client.Bencode.Sound.Elements.{parse_elements-Ensures, parse_entries-Ensures}
use bittorrent_client.Bencode.Complete.Scalars.{cursor, whole_view, parse_integer-whole}
use bittorrent_client.Bencode.Complete.Switch.{parse_list_by_complete, parse_dictionary_by_complete}
use bittorrent_client.Bencode.Complete.Elements.{parse_elements_complete, parse_entries_complete}

-- The data begins with the encoding of an element with this storage; what follows it is free.
abbrev pub BeginsWith : List ℕ → StorageRef → Type 0
BeginsWith content st = (s : List ℕ) × (r : List ℕ) × (content ≡ s ++ r) × EncodesStorage st 0 s

-- A parser of one kind of element, run by an entry point that takes the contents out.
module _ {X : Type 0} (con : X → StorageRef) (part : ElementRef → Option X)
    (part-con : (x : X) (p : ElementPosition) → part (element (con x) p) ≡ some x) where
  finish-Ensures :
      (content : List ℕ) (r : Result Failure (ElementRef × Cursor))
      → Ensures Reported (ReadsAs con (start_of content)) r
      → Ensures Reported
          (λ x. BeginsWith content (con x))
          (drop_cursor (then_parse r λ e. asserted (part e)))
  finish-Ensures content r (holds {a = (e, c)} (x, same, (s, line, _, enc))) =
      let found : Encodes (element (con x) (range (start_of content) c)) 0 s =
        subst (λ (y : ElementRef). Encodes y 0 s) same enc in
      rw (same, part-con x (range (start_of content) c)) (holds (s, c.rest, line, found.1))
  finish-Ensures content r (rejected h) = rejected h

  finish-eq-ok :
      (p : ElementPosition) (x : X) (c : Cursor) (r : Result Failure (ElementRef × Cursor))
      → r ≡ ok (element (con x) p, c)
      → drop_cursor (then_parse r λ e. asserted (part e)) ≡ ok x
  finish-eq-ok p x c r h = rw (h, part-con x p)

is_integer : (v : View) (p : ElementPosition) → as_integer (element (integer v) p) ≡ some v
unfolding as_integer
is_integer v p = refl

is_list : (es : ListRef) (p : ElementPosition) → as_list (element (list es) p) ≡ some es
unfolding as_list
is_list es p = refl

is_dictionary :
    (d : DictionaryRef) (p : ElementPosition) → as_dictionary (element (dictionary d) p) ≡ some d
unfolding as_dictionary
is_dictionary d p = refl

pub parse_dictionary_only-Ensures :
    (content : List ℕ)
    → Ensures Reported (λ d. BeginsWith content (dictionary d)) (parse_dictionary_only content)
unfolding parse_dictionary_only
parse_dictionary_only-Ensures content =
    finish-Ensures dictionary as_dictionary is_dictionary content _ (
      parse_dictionary_by-Ensures (parse_entries (length content) (fuel_for content))
        (start_of content)
        λ begin less. parse_entries-Ensures (length content) (fuel_for content) begin (omega arith))

pub parse_dictionary_only_complete :
    (content : List ℕ) (d : DictionaryRef)
    → BeginsWith content (dictionary d)
    → parse_dictionary_only content ≡ ok d
unfolding parse_dictionary_only
parse_dictionary_only_complete content d (s, r, line, (body, encs, e)) =
    let size : length content ≡ length body + 2 + length r =
      omega
        (arith, ap length line, length-append s r, ap length e, length-append body (b'e' ∷ [])) in
    let whole_text : List ℕ = b'd' ∷ (body ++ b'e' ∷ []) in
    let line' : content ≡ whole_text ++ r = line ∙ ap (λ (x : List ℕ). x ++ r) e in
    finish-eq-ok dictionary as_dictionary is_dictionary (span 0 whole_text) d
      (cursor (0 + length whole_text) r) _
      (subst
        (λ (x : List ℕ).
          parse_dictionary_by (parse_entries (length content) (fuel_for content)) (start_of x)
          ≡ ok (element (dictionary d) (span 0 whole_text), cursor (0 + length whole_text) r))
        (sym line')
        (parse_dictionary_by_complete (parse_entries (length content) (fuel_for content)) 0 d body r
          (parse_entries_complete (length content) (fuel_for content) d (0 + 1) body r encs
            (omega arith) (omega arith))))

-- ParseDictionary returns `d`, before any address overflows, exactly when the data begins with an encoding
-- of `d`: it ignores what follows, and no string in this `d` runs past the end of the buffer.
pub parse_dictionary_only_iff :
    (content : List ℕ) (d : DictionaryRef)
    → (parse_dictionary_only content ≡ ok d) ↔ BeginsWith content (dictionary d)
parse_dictionary_only_iff content d =
    (Ensures-ok (parse_dictionary_only-Ensures content), parse_dictionary_only_complete content d)

parse_list_only-Ensures :
    (content : List ℕ)
    → Ensures Reported (λ es. BeginsWith content (list es)) (parse_list_only content)
unfolding parse_list_only
parse_list_only-Ensures content = finish-Ensures list as_list is_list content _ (
    parse_list_by-Ensures (parse_elements (length content) (fuel_for content)) (start_of content)
      λ begin less. parse_elements-Ensures (length content) (fuel_for content) begin (omega arith))

parse_list_only_complete :
    (content : List ℕ) (es : ListRef)
    → BeginsWith content (list es)
    → parse_list_only content ≡ ok es
unfolding parse_list_only
parse_list_only_complete content es (s, r, line, (body, encs, e)) =
    let size : length content ≡ length body + 2 + length r =
      omega
        (arith, ap length line, length-append s r, ap length e, length-append body (b'e' ∷ [])) in
    let whole_text : List ℕ = b'l' ∷ (body ++ b'e' ∷ []) in
    let line' : content ≡ whole_text ++ r = line ∙ ap (λ (x : List ℕ). x ++ r) e in
    finish-eq-ok list as_list is_list (span 0 whole_text) es (cursor (0 + length whole_text) r) _ (
      subst
        (λ (x : List ℕ).
          parse_list_by (parse_elements (length content) (fuel_for content)) (start_of x)
          ≡ ok (element (list es) (span 0 whole_text), cursor (0 + length whole_text) r))
        (sym line')
        (parse_list_by_complete (parse_elements (length content) (fuel_for content)) 0 es body r (
          parse_elements_complete (length content) (fuel_for content) es (0 + 1) body r encs
            (omega arith) (omega arith))))

-- ParseList returns `es`, before any address overflows, exactly when the data begins with an encoding of the
-- list `es`.
pub parse_list_only_iff :
    (content : List ℕ) (es : ListRef)
    → (parse_list_only content ≡ ok es) ↔ BeginsWith content (list es)
parse_list_only_iff content es =
    (Ensures-ok (parse_list_only-Ensures content), parse_list_only_complete content es)

parse_integer_only-Ensures :
    (content : List ℕ)
    → Ensures Reported (λ v. BeginsWith content (integer v)) (parse_integer_only content)
unfolding parse_integer_only
parse_integer_only-Ensures content =
    finish-Ensures integer as_integer is_integer content _
      (parse_integer-Ensures (start_of content))

parse_integer_only_complete :
    (content : List ℕ) (v : View)
    → BeginsWith content (integer v)
    → parse_integer_only content ≡ ok v
unfolding parse_integer_only
parse_integer_only_complete content v (s, r, line, (good, fits, e)) =
    let text : List ℕ = b'i' ∷ (v.bytes ++ b'e' ∷ []) in
    let line' : content ≡ text ++ r = line ∙ ap (λ (x : List ℕ). x ++ r) e in
    finish-eq-ok integer as_integer is_integer (span 0 text) (whole v.bytes)
      (cursor (0 + length text) r) _
      (subst
        (λ (x : List ℕ).
          parse_integer (start_of x)
          ≡ ok (element (integer (whole v.bytes)) (span 0 text), cursor (0 + length text) r))
        (sym line') (parse_integer-whole 0 v.bytes r good))
    ∙ ap ok (sym (whole_view v fits))

-- ParseInteger returns `v` exactly when the data begins with 'i', the text of an integer without
-- leading zeros and without "-0", and 'e'.
pub parse_integer_only_iff :
    (content : List ℕ) (v : View)
    → (parse_integer_only content ≡ ok v) ↔ BeginsWith content (integer v)
parse_integer_only_iff content v =
    (Ensures-ok (parse_integer_only-Ensures content), parse_integer_only_complete content v)
