-- ===== src/Bencode/Complete/Scalars.antt =====
-- parse_integer and parse_string on data that the grammar describes.
use bittorrent_client.Base.{
  ℕ, ◌+◌, ◌<◌, ◌≡◌, ◌≢◌, ◌⊎◌, refl, sym, ap, ◌∙◌, true, false, List, [], ◌∷◌, ◌++◌, append_assoc,
  ok, arith, ◌==◌, length, length-append, take-append, drop-append, lt→ltb,
}
use bittorrent_client.Bencode.Elements.{View, IsWhole, whole, ElementRef, element, integer, string}
use bittorrent_client.Bencode.Length.{AllDigits, IsLength, is_digit, parse_length_complete}
use bittorrent_client.Bencode.Cursor.{Cursor, Parser}
use bittorrent_client.Bencode.Grammar.{IsInteger, plain, negative, span}
use bittorrent_client.Bencode.Parser.{
  skip_integer, parse_integer, skip_length, parse_string_length, parse_string,
}

-- A cursor at offset `o` with the bytes `r` left.
abbrev pub cursor : ℕ → List ℕ → Cursor
cursor o r = record { offset = o; rest = r }

pub digit_is_no_mark :
    (d : ℕ)
    → is_digit d ≡ true
    → ((d == b'e') ≡ false) × ((d == b'-') ≡ false) × ((d == b':') ≡ false)
unfolding is_digit
digit_is_no_mark d h = ground arith

skip_integer-digits :
    (o : ℕ) (ds r : List ℕ)
    → AllDigits ds
    → skip_integer o (ds ++ b'e' ∷ r) ≡ ok (cursor (o + length ds) (b'e' ∷ r))
unfolding skip_integer
skip_integer-digits o [] r all = ground arith
skip_integer-digits o (d ∷ ds) r all =
    ground (arith, digit_is_no_mark d all.0, skip_integer-digits (o + 1) ds r all.1)

colon_is_no_digit : is_digit b':' ≡ false
unfolding is_digit
colon_is_no_digit = refl

skip_length-digits :
    (o : ℕ) (ds r : List ℕ)
    → AllDigits ds
    → skip_length o (ds ++ b':' ∷ r) ≡ ok (cursor (o + length ds) (b':' ∷ r))
unfolding skip_length
skip_length-digits o [] r all = ground (arith, colon_is_no_digit)
skip_length-digits o (d ∷ ds) r all = ground (arith, skip_length-digits (o + 1) ds r all.1)

parse_integer-plain :
    (o d : ℕ) (ds r : List ℕ)
    → AllDigits (d ∷ ds)
    → (d ≢ b'0') ⊎ (ds ≡ [])
    → parse_integer (cursor o (b'i' ∷ d ∷ (ds ++ b'e' ∷ r)))
      ≡ ok (
        element (integer (whole (d ∷ ds))) (record { start = o; end = o + (length ds + 3) }),
        cursor (o + (length ds + 3)) r,
      )
unfolding parse_integer
parse_integer-plain o d ds r all h =
    rw ((digit_is_no_mark d all.0).1, skip_integer-digits (o + 1) (d ∷ ds) r all)
      (ground (arith, take-append (d ∷ ds) (b'e' ∷ r)))

parse_integer-negative :
    (o d : ℕ) (ds r : List ℕ)
    → AllDigits (d ∷ ds)
    → d ≢ b'0'
    → parse_integer (cursor o (b'i' ∷ b'-' ∷ d ∷ (ds ++ b'e' ∷ r)))
      ≡ ok (
        element (integer (whole (b'-' ∷ d ∷ ds))) (record { start = o; end = o + (length ds + 4) }),
        cursor (o + (length ds + 4)) r,
      )
unfolding parse_integer
parse_integer-negative o d ds r all h =
    rw (skip_integer-digits (o + 1 + 1) (d ∷ ds) r all)
      (ground (arith, take-append (b'-' ∷ d ∷ ds) (b'e' ∷ r)))

-- What a parser of one element must return on the encoding `s` of the element `e` at offset `o`.
abbrev pub Parses : ElementRef → ℕ → List ℕ → Parser ElementRef → List ℕ → Type 0
Parses e o s p r = p (cursor o (s ++ r)) ≡ ok (e, cursor (o + length s) r)

pub whole_view : (v : View) → IsWhole v → v ≡ whole v.bytes
whole_view v h = ap (λ (n : ℕ). record { size = n; bytes = v.bytes }) (sym h)

text_before_end : (t r : List ℕ) → b'i' ∷ (t ++ b'e' ∷ []) ++ r ≡ b'i' ∷ (t ++ b'e' ∷ r)
text_before_end t r = ap (◌∷◌ b'i') (append_assoc t (b'e' ∷ []) r)

pub parse_integer-whole :
    (o : ℕ) (t r : List ℕ)
    → IsInteger t
    → Parses
        (element (integer (whole t)) (span o (b'i' ∷ (t ++ b'e' ∷ []))))
        o
        (b'i' ∷ (t ++ b'e' ∷ []))
        parse_integer
        r
parse_integer-whole o [] r (plain p) = elim p [ ]
parse_integer-whole o (d ∷ ds) r (plain p) = rw text_before_end (
    parse_integer-plain o d ds r p.0 p.1
    ∙ ap
        (λ (n : ℕ).
          ok (element (integer (whole (d ∷ ds))) (record { start = o; end = n }), cursor n r))
        (omega (arith, length-append ds (b'e' ∷ []))))
parse_integer-whole o _ r (negative {d} {ds} all h) = rw text_before_end (
    parse_integer-negative o d ds r all h
    ∙ ap
        (λ (n : ℕ).
          ok
            (element (integer (whole (b'-' ∷ d ∷ ds))) (record { start = o; end = n }), cursor n r))
        (omega (arith, length-append ds (b'e' ∷ []))))

-- parse_string_length reads a prefix of digits and the colon behind it.
pub parse_string_length-prefix :
    (o : ℕ) (ds r : List ℕ)
    → AllDigits ds
    → 0 < length ds
    → parse_string_length (cursor o (ds ++ b':' ∷ r))
      ≡ ok (
        element (integer (whole ds)) (record { start = o; end = o + length ds + 1 }),
        cursor (o + length ds + 1) r,
      )
unfolding parse_string_length
parse_string_length-prefix o ds r all pos =
    rw (skip_length-digits o ds r all) (ground (arith, take-append ds (b':' ∷ r)))

-- parse_string reads a string whose length is less than the size of the buffer.
pub parse_string-whole :
    (total o : ℕ) (ds t r : List ℕ)
    → IsLength ds (length t)
    → length t < total
    → parse_string total (cursor o (ds ++ b':' ∷ (t ++ r)))
      ≡ ok (
        element (string (whole t)) (record { start = o; end = o + length ds + 1 + length t }),
        cursor (o + length ds + 1 + length t) r,
      )
unfolding parse_string
parse_string-whole total o ds t r num h = rw (
  parse_string_length-prefix o ds (t ++ r) num.digits num.some_digit,
  parse_length_complete ds (length t) num,
  lt→ltb (length t) total h,
  take-append t r,
  drop-append t r,
)
