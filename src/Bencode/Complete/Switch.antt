-- ===== src/Bencode/Complete/Switch.antt =====
-- parse_element and the loops of the containers on data that the grammar describes.
use bittorrent_client.Base.{
  ℕ, ◌+◌, ◌≤◌, ◌≡◌, sym, ap, ◌∙◌, true, false, List, [], ◌∷◌, ◌++◌, append_assoc, ok, arith, ◌==◌,
  length, length-append, subst,
}
use bittorrent_client.Bencode.Elements.{
  ElementId, View, whole, ElementRef, ListRef, DictionaryRef, element, integer, string, list,
  dictionary,
}
use bittorrent_client.Bencode.Length.{is_digit, IsLength}
use bittorrent_client.Bencode.Cursor.{Cursor, Parser}
use bittorrent_client.Bencode.Grammar.{IsInteger, EncodesString, Encodes, span}
use bittorrent_client.Bencode.Parser.{
  parse_string, parse_list_by, parse_dictionary_by, more, dispatch,
}
use bittorrent_client.Bencode.Complete.Scalars.{
  cursor, Parses, whole_view, parse_integer-whole, parse_string-whole,
}

pub digit_is_no_start :
    (d : ℕ)
    → is_digit d ≡ true
    → ((d == b'e') ≡ false) × ((d == b'i') ≡ false) × ((d == b'l') ≡ false) × ((d == b'd') ≡ false)
unfolding is_digit
digit_is_no_start d h = ground arith

pub parse_list_by_complete :
    (loop : Parser ListRef) (o : ℕ) (es : ListRef) (body r : List ℕ)
    → loop (cursor (o + 1) (body ++ b'e' ∷ r)) ≡ ok (es, cursor (o + 1 + length body) (b'e' ∷ r))
    → Parses
        (element (list es) (span o (b'l' ∷ (body ++ b'e' ∷ []))))
        o
        (b'l' ∷ (body ++ b'e' ∷ []))
        (parse_list_by loop)
        r
unfolding parse_list_by
parse_list_by_complete loop o es body r h =
    rw (append_assoc body (b'e' ∷ []) r, h)
      (ap (λ (n : ℕ). ok (element (list es) (record { start = o; end = n }), cursor n r))
        (omega (arith, length-append body (b'e' ∷ []))))

pub parse_dictionary_by_complete :
    (loop : Parser DictionaryRef) (o : ℕ) (d : DictionaryRef) (body r : List ℕ)
    → loop (cursor (o + 1) (body ++ b'e' ∷ r)) ≡ ok (d, cursor (o + 1 + length body) (b'e' ∷ r))
    → Parses
        (element (dictionary d) (span o (b'd' ∷ (body ++ b'e' ∷ []))))
        o
        (b'd' ∷ (body ++ b'e' ∷ []))
        (parse_dictionary_by loop)
        r
unfolding parse_dictionary_by
parse_dictionary_by_complete loop o d body r h =
    rw (append_assoc body (b'e' ∷ []) r, h)
      (ap (λ (n : ℕ). ok (element (dictionary d) (record { start = o; end = n }), cursor n r))
        (omega (arith, length-append body (b'e' ∷ []))))

-- A string behind its prefix reaches parse_string through the switch.
dispatch-string :
    (total : ℕ) (id : ElementId) (elements : Parser ListRef) (entries : Parser DictionaryRef)
    (ds r : List ℕ) (n : ℕ) (c : Cursor)
    → IsLength ds n
    → dispatch total id elements entries (ds ++ r) c ≡ parse_string total c
unfolding dispatch
dispatch-string total id elements entries [] r n c num = absurd (omega (arith, num.some_digit))
dispatch-string total id elements entries (d ∷ ds) r n c num =
    let (_, i, l, k) = digit_is_no_start d num.digits.0 in rw (i, l, k)

string-whole :
    (total o : ℕ) (ds t r : List ℕ)
    → IsLength ds (length t)
    → o + length (ds ++ b':' ∷ t) ≤ total
    → Parses
        (element (string (whole t)) (span o (ds ++ b':' ∷ t)))
        o
        (ds ++ b':' ∷ t)
        (parse_string total)
        r
string-whole total o ds t r num h = rw (append_assoc ds (b':' ∷ t) r) (
    parse_string-whole total o ds t r num
      (omega (arith, length-append ds (b':' ∷ t), num.some_digit))
    ∙ ap (λ (n : ℕ). ok (element (string (whole t)) (record { start = o; end = n }), cursor n r))
        (omega (arith, length-append ds (b':' ∷ t))))

pub string_complete :
    (total : ℕ) (v : View) (o : ℕ) (s r : List ℕ)
    → EncodesString v s
    → o + length s ≤ total
    → Parses (element (string v) (span o s)) o s (parse_string total) r
string_complete total v o s r (ds, num, fits, e) h =
    subst (λ (w : View). Parses (element (string w) (span o s)) o s (parse_string total) r)
      (sym (whole_view v fits))
      (subst
        (λ (x : List ℕ).
          Parses (element (string (whole v.bytes)) (span o x)) o x (parse_string total) r)
        (sym e)
        (string-whole total o ds v.bytes r (subst (IsLength ds) (sym fits) num)
          (omega (arith, ap length e))))

-- The loops go on where an encoding stands.
more-digit : (d : ℕ) (r : List ℕ) (o : ℕ) → is_digit d ≡ true → more (cursor o (d ∷ r)) ≡ true
unfolding more
more-digit d r o h = rw ((digit_is_no_start d h).0)

pub more-string :
    (v : View) (o : ℕ) (s r : List ℕ) → EncodesString v s → more (cursor o (s ++ r)) ≡ true
more-string v o s r ([], num, _, e) = absurd (omega (arith, num.some_digit))
more-string v o s r (d ∷ ds, num, _, e) = rw e (more-digit d _ o num.digits.0)

pub more-Encodes :
    (e : ElementRef) (o : ℕ) (s r : List ℕ) → Encodes e o s → more (cursor o (s ++ r)) ≡ true
unfolding more
more-Encodes (element (integer v) p) o s r (_, (_, _, e)) = rw e
more-Encodes (element (string v) p) o s r (_, enc) = more-string v o s r enc
more-Encodes (element (list es) p) o s r (_, (_, _, e)) = rw e
more-Encodes (element (dictionary d) p) o s r (_, (_, _, e)) = rw e

-- The switch on the encoding of each kind of element, with the loops shut.
module _ (total : ℕ) (id : ElementId) (elements : Parser ListRef)
    (entries : Parser DictionaryRef) where
  abbrev pub Dispatches : ElementRef → ℕ → List ℕ → List ℕ → Type 0
  Dispatches e o s r =
      dispatch total id elements entries (s ++ r) (cursor o (s ++ r))
      ≡ ok (e, cursor (o + length s) r)

  pub dispatch-string_complete :
      (v : View) (o : ℕ) (s r : List ℕ)
      → EncodesString v s
      → o + length s ≤ total
      → Dispatches (element (string v) (span o s)) o s r
  dispatch-string_complete v o s r enc h =
      let (ds, num, _, e) = enc in
      let line : s ++ r ≡ ds ++ (b':' ∷ (v.bytes ++ r)) =
        ap (λ (x : List ℕ). x ++ r) e ∙ append_assoc ds (b':' ∷ v.bytes) r in
      subst
        (λ (x : List ℕ).
          dispatch total id elements entries x (cursor o (s ++ r))
          ≡ parse_string total (cursor o (s ++ r)))
        (sym line)
        (dispatch-string total id elements entries ds (b':' ∷ (v.bytes ++ r)) v.size
          (cursor o (s ++ r)) num)
      ∙ string_complete total v o s r enc h

  pub dispatch-integer_complete :
      (o : ℕ) (t r : List ℕ)
      → IsInteger t
      → let s = b'i' ∷ (t ++ b'e' ∷ []) in Dispatches (element (integer (whole t)) (span o s)) o s r
  unfolding dispatch
  dispatch-integer_complete o t r h = parse_integer-whole o t r h

  pub dispatch-list_complete :
      (o : ℕ) (es : ListRef) (body r : List ℕ)
      → elements (cursor (o + 1) (body ++ b'e' ∷ r))
        ≡ ok (es, cursor (o + 1 + length body) (b'e' ∷ r))
      → let s = b'l' ∷ (body ++ b'e' ∷ []) in Dispatches (element (list es) (span o s)) o s r
  unfolding dispatch
  dispatch-list_complete o es body r h = parse_list_by_complete elements o es body r h

  pub dispatch-dictionary_complete :
      (o : ℕ) (d : DictionaryRef) (body r : List ℕ)
      → entries (cursor (o + 1) (body ++ b'e' ∷ r))
        ≡ ok (d, cursor (o + 1 + length body) (b'e' ∷ r))
      → let s = b'd' ∷ (body ++ b'e' ∷ []) in Dispatches (element (dictionary d) (span o s)) o s r
  unfolding dispatch
  dispatch-dictionary_complete o d body r h = parse_dictionary_by_complete entries o d body r h
