-- ===== src/Bencode/Sound/Strings.antt =====
-- What parse_string accepts.
use bittorrent_client.Base.{
  ℕ, ◌+◌, ◌-◌, ◌<◌, ◌≡◌, ◌⊎◌, inl, inr, refl, sym, ap, ◌∙◌, false, List, [], ◌∷◌, ◌++◌,
  append_assoc, Option, none, some, Ensures, holds, rejected, Ensures-if, Ensures-mono, arith, ltb,
  ◌==◌, tests, dec_le, length, length-append, take, drop, drop_ge, take-append-drop, length-take,
}
use bittorrent_client.Bencode.Errors.{ParseErrorc}
use bittorrent_client.Bencode.Elements.{
  ElementId, View, ElementRef, element, integer, string, whole,
}
use bittorrent_client.Bencode.Length.{AllDigits, IsLength, parse_length, parse_length_sound}
use bittorrent_client.Bencode.Cursor.{
  Cursor, Reported, address_limit, advance, consume_n, view_at, range,
}
use bittorrent_client.Bencode.Grammar.{Encodes}
use bittorrent_client.Bencode.Parser.{parse_string_length, length_or_fail, parse_string}
use bittorrent_client.Bencode.Sound.Scalars.{
  Reads, Ensures-then, consume-Ensures, fail_if-Ensures, Skips, skip_length-Ensures, Ensures-Stops,
  view_at-eq-whole,
}

-- The prefix that parse_string_length reads, with the colon.
abbrev Prefixed : Cursor → ElementRef × Cursor → Type 0
Prefixed c r =
    (ds : List ℕ) × AllDigits ds
    × (0 < length ds)
    × (c.rest ≡ ds ++ b':' ∷ r.1.rest)
    × (r.1.offset ≡ c.offset + length ds + 1)
    × (r.0 ≡ element (integer (whole ds)) (range c r.1))

prefix_found :
    (c last stop : Cursor)
    → Skips c.offset c.rest last
    → (c.offset == last.offset) ≡ false
    → last.rest ≡ b':' ∷ stop.rest
    → stop.offset ≡ last.offset + 1
    → Prefixed c (element (integer (view_at c (stop.offset - c.offset - 1))) (range c stop), stop)
prefix_found c last stop (ds, all, e, f) some_digit p q =
    let line : c.rest ≡ ds ++ b':' ∷ stop.rest = e ∙ ap (◌++◌ ds) p in
    let view : view_at c (stop.offset - c.offset - 1) ≡ whole ds =
      view_at-eq-whole c ds (b':' ∷ stop.rest) _ line (omega arith) in
    (
      ds,
      all,
      ground arith,
      line,
      omega arith,
      ap (λ (v : View). element (integer v) (range c stop)) view,
    )

parse_string_length-Ensures : (c : Cursor) → Ensures Reported (Prefixed c) (parse_string_length c)
unfolding parse_string_length
parse_string_length-Ensures c =
    Ensures-then (Ensures-Stops c _ (skip_length-Ensures _ _)) λ last last' (same, skips).
      Ensures-then (fail_if-Ensures _ _ _ last') λ _ there (some_digit, stays).
        Ensures-then (consume-Ensures b':' _ _ there) λ _ stop (p, q).
          let skipped : Skips c.offset c.rest last = rw same skips in
          holds (
            prefix_found c last stop skipped some_digit (rw (same, ← stays) p)
              (rw (same, ← stays) q))

-- A string whose length passes the test of consume_n, and runs past the end of the buffer.
abbrev pub Overruns : Cursor → ElementRef × Cursor → Type 0
Overruns c r =
    (v : View) × (r.0 ≡ element (string v) (range c r.1))
    × (length v.bytes < v.size)
    × (r.1.rest ≡ [])

-- What a parser of one element gives: an element that the grammar reads, or an overrunning string.
abbrev pub ReadsElement : Cursor → ElementRef × Cursor → Type 0
ReadsElement c r = Reads Encodes c r ⊎ Overruns c r

length_or_fail-Ensures :
    (o : Option ℕ) (c : Cursor)
    → Ensures Reported (λ r. (o ≡ some r.0) × (r.1 ≡ c)) (length_or_fail o c)
length_or_fail-Ensures none c = rejected tt
length_or_fail-Ensures (some n) c = holds (refl, refl)

consume_n-Ensures :
    (total n : ℕ) (id : ElementId) (e : ParseErrorc) (c : Cursor)
    → Ensures Reported (λ r. (n < total) × (r.1 ≡ advance n c)) (consume_n total n id e c)
unfolding consume_n
consume_n-Ensures total n id e c =
    Ensures-if (ltb n total) (λ h. holds (omega tests, refl))
      (λ _. Ensures-if (ltb n address_limit) (λ _. rejected tt) (λ h. rejected (ground arith)))

string_read :
    (c begin : Cursor) (ds : List ℕ) (n : ℕ)
    → IsLength ds n
    → c.rest ≡ ds ++ b':' ∷ begin.rest
    → begin.offset ≡ c.offset + length ds + 1
    → ReadsElement c
        (element (string (view_at begin n)) (range c (advance n begin)), advance n begin)
string_read c begin ds n num line place = elim (dec_le n (length begin.rest)) [
  | yes fits ↦
      let bytes : List ℕ = take n begin.rest in
      let size : length bytes ≡ n = omega (arith, length-take n begin.rest) in
      let all : c.rest ≡ (ds ++ b':' ∷ bytes) ++ drop n begin.rest =
        line
        ∙ ap (λ (r : List ℕ). ds ++ b':' ∷ r) (sym (take-append-drop n begin.rest))
        ∙ sym (append_assoc ds (b':' ∷ bytes) (drop n begin.rest)) in
      let stop : begin.offset + n ≡ c.offset + length (ds ++ b':' ∷ bytes) =
        omega (arith, length-append ds (b':' ∷ bytes)) in
      inl (
        ds ++ b':' ∷ bytes,
        all,
        stop,
        (ap (λ (k : ℕ). record { start = c.offset; end = k }) stop, (ds, num, size, refl)),
      )
  | no short ↦ inr (
    view_at begin n,
    refl,
    omega (arith, length-take n begin.rest),
    drop_ge n begin.rest (omega arith),
  )
]

-- What parse_string reads: a length prefix, a colon, and a view of the length that the prefix says,
-- which may run past the end of the data.
abbrev pub ReadsString : ℕ → Cursor → ElementRef × Cursor → Type 0
ReadsString total c r =
    (n : ℕ) × (ds : List ℕ) × (begin : Cursor) × IsLength ds n
    × (n < total)
    × (c.rest ≡ ds ++ b':' ∷ begin.rest)
    × (begin.offset ≡ c.offset + length ds + 1)
    × (r ≡ (element (string (view_at begin n)) (range c (advance n begin)), advance n begin))

pub parse_string-Ensures :
    (total : ℕ) (c : Cursor) → Ensures Reported (ReadsString total c) (parse_string total c)
unfolding parse_string
parse_string-Ensures total c =
    Ensures-then (parse_string_length-Ensures c) λ e begin (ds, all, pos, line, place, same).
      rw same (
        Ensures-then (length_or_fail-Ensures (parse_length ds) begin) λ n begin' (number, stays).
          Ensures-then (consume_n-Ensures total n _ _ begin') λ _ stop (less, moved).
            holds
              (n, ds, begin, parse_length_sound ds n number, less, line, place, rw (moved, stays)))

-- parse_string reads a string element, overruns the buffer, or reports an error.
pub parse_string-element :
    (total : ℕ) (c : Cursor) → Ensures Reported (ReadsElement c) (parse_string total c)
parse_string-element total c =
    Ensures-mono (parse_string-Ensures total c) λ r (n, ds, begin, num, less, line, place, same).
      rw same (string_read c begin ds n num line place)
