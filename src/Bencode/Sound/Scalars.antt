-- ===== src/Bencode/Sound/Scalars.antt =====
-- What parse_integer accepts, and the loops over digits.
use bittorrent_client.Base.{
  ℕ, ◌+◌, ◌-◌, ◌≡◌, inl, inr, refl, sym, ap, ◌∙◌, Bool, true, false, List, [], ◌∷◌, ◌++◌,
  append_assoc, Result, Ensures, holds, rejected, Ensures-if, arith, ◌==◌, Bool-cases, length,
  length-append, drop, take-append, subst,
}
use bittorrent_client.Bencode.Errors.{ParseErrorc}
use bittorrent_client.Bencode.Elements.{
  ElementId, View, ElementRef, StorageRef, element, integer, whole,
}
use bittorrent_client.Bencode.Length.{AllDigits, is_digit}
use bittorrent_client.Bencode.Cursor.{
  Cursor, Failure, Reported, Parser, then_parse, at, consume, view_at, range,
}
use bittorrent_client.Bencode.Grammar.{IsPlain, IsInteger, plain, negative, EncodesStorage, Encodes}
use bittorrent_client.Bencode.Parser.{
  stop_at, skip_integer, is_bad_integer, after_sign, fail_if, parse_integer, skip_length,
}

-- Between the two cursors lie bytes that encode the value, as `Enc` says.
abbrev pub Reads {ℓ κ} : {A : Type ℓ} → (A → ℕ → List ℕ → Type κ) → Cursor → A × Cursor → Type κ
Reads Enc c (a, c') =
    (s : List ℕ) × (c.rest ≡ s ++ c'.rest) × (c'.offset ≡ c.offset + length s) × Enc a c.offset s

-- The same of an element that is known to be a `con`.
abbrev pub ReadsAs {ℓ} : {X : Type ℓ} → (X → StorageRef) → Cursor → ElementRef × Cursor → Type ℓ
ReadsAs {X} con c r = (x : X) × (r.0 ≡ element (con x) (range c r.1)) × Reads Encodes c r

-- The postcondition of a step, given that of the step before it.
pub Ensures-then {ℓ κ μ ν} :
    {A : Type ℓ} {B : Type κ} {P : A × Cursor → Type μ} {P' : B × Cursor → Type ν}
    {r : Result Failure (A × Cursor)} {f : A → Parser B}
    → Ensures Reported P r
    → ((a : A) (c : Cursor) → P (a, c) → Ensures Reported P' (f a c))
    → Ensures Reported P' (then_parse r f)
Ensures-then (holds {a = (a, c)} h) k = k a c h
Ensures-then (rejected h) k = rejected h

pub at→eq : (ch : ℕ) (c : Cursor) → at ch c ≡ true → c.rest ≡ ch ∷ drop 1 c.rest
unfolding at
at→eq ch c h = ground arith

pub consume-Ensures :
    (ch : ℕ) (id : ElementId) (e : ParseErrorc) (c : Cursor)
    → Ensures Reported
        (λ r. (c.rest ≡ ch ∷ r.1.rest) × (r.1.offset ≡ c.offset + 1))
        (consume ch id e c)
unfolding consume
consume-Ensures ch id e c =
    Ensures-if (at ch c) (λ h. holds (at→eq ch c h, refl)) (λ _. rejected tt)

pub fail_if-Ensures :
    (b : Bool) (id : ElementId) (e : ParseErrorc) (c : Cursor)
    → Ensures Reported (λ r. (b ≡ false) × (r.1 ≡ c)) (fail_if b id e c)
fail_if-Ensures true id e c = rejected tt
fail_if-Ensures false id e c = holds (refl, refl)

-- The digits that a loop skips from offset `o`.
abbrev pub Skips : ℕ → List ℕ → Cursor → Type 0
Skips o r last =
    (ds : List ℕ) × AllDigits ds × (r ≡ ds ++ last.rest) × (last.offset ≡ o + length ds)

Skips-cons :
    (o d : ℕ) (r : List ℕ) (last : Cursor)
    → is_digit d ≡ true
    → Skips (o + 1) r last
    → Skips o (d ∷ r) last
Skips-cons o d r last h (ds, all, e, f) = (d ∷ ds, (h, all), ap (◌∷◌ d) e, omega arith)

Ensures-Skips-cons :
    (o d : ℕ) (r : List ℕ) (x : Result Failure Cursor)
    → is_digit d ≡ true
    → Ensures Reported (Skips (o + 1) r) x
    → Ensures Reported (Skips o (d ∷ r)) x
Ensures-Skips-cons o d r x h (holds {a} s) = holds (Skips-cons o d r a h s)
Ensures-Skips-cons o d r x h (rejected q) = rejected q

skip_integer-Ensures : (o : ℕ) (r : List ℕ) → Ensures Reported (Skips o r) (skip_integer o r)
unfolding skip_integer
skip_integer-Ensures o [] = holds ([], tt, refl, omega arith)
skip_integer-Ensures o (c ∷ cs) =
    Ensures-if (c == b'e') (λ _. holds ([], tt, refl, omega arith))
      λ _.
        Ensures-if (is_digit c)
          (λ h. Ensures-Skips-cons o c cs _ h (skip_integer-Ensures (o + 1) cs)) (λ _. rejected tt)

pub skip_length-Ensures : (o : ℕ) (r : List ℕ) → Ensures Reported (Skips o r) (skip_length o r)
unfolding skip_length
skip_length-Ensures o [] = holds ([], tt, refl, omega arith)
skip_length-Ensures o (c ∷ cs) =
    Ensures-if (is_digit c) (λ h. Ensures-Skips-cons o c cs _ h (skip_length-Ensures (o + 1) cs))
      λ _. Ensures-if (c == b':') (λ _. holds ([], tt, refl, omega arith)) (λ _. rejected tt)

-- The cursor that a skipping loop stops at, returned and left in place.
abbrev Stops : Cursor → Cursor × Cursor → Type 0
Stops from r = (r.0 ≡ r.1) × Skips from.offset from.rest r.1

pub Ensures-Stops :
    (from : Cursor) (x : Result Failure Cursor)
    → Ensures Reported (Skips from.offset from.rest) x
    → Ensures Reported (Stops from) (stop_at x)
Ensures-Stops from x (holds h) = holds (refl, h)
Ensures-Stops from x (rejected h) = rejected h

-- The text between `begin` and `last` is an integer, if the tests of parse_integer find no fault.
abbrev IntegerBetween : Cursor → Cursor → Type 0
IntegerBetween begin last =
    (t : List ℕ) × IsInteger t
    × (begin.rest ≡ t ++ last.rest)
    × (last.offset ≡ begin.offset + length t)

IsPlain-of_digits :
    (o : ℕ) (last : Cursor) (ds : List ℕ)
    → AllDigits ds
    → last.offset ≡ o + length ds
    → is_bad_integer false (record { offset = o; rest = ds ++ last.rest }) last ≡ false
    → IsPlain ds
unfolding is_bad_integer
IsPlain-of_digits o last [] all e h = ground arith
IsPlain-of_digits o last (d ∷ []) all e h = (all, inr refl)
IsPlain-of_digits o last (d ∷ d' ∷ ds) all e h = (all, inl (ground arith))

IsInteger-of_negative :
    (o : ℕ) (last : Cursor) (ds : List ℕ)
    → AllDigits ds
    → last.offset ≡ o + 1 + length ds
    → is_bad_integer true (record { offset = o; rest = b'-' ∷ (ds ++ last.rest) }) last ≡ false
    → IsInteger (b'-' ∷ ds)
unfolding is_bad_integer
IsInteger-of_negative o last [] all e h = ground arith
IsInteger-of_negative o last (d ∷ ds) all e h = negative all (ground arith)

between :
    (begin last : Cursor)
    → Skips (after_sign (at b'-' begin) begin).offset (after_sign (at b'-' begin) begin).rest last
    → is_bad_integer (at b'-' begin) begin last ≡ false
    → IntegerBetween begin last
between begin last skips good = elim (Bool-cases (at b'-' begin)) [
  | inl minus ↦
      let (ds, all, e, f) = rw minus at skips in
      let line : begin.rest ≡ b'-' ∷ (ds ++ last.rest) = at→eq b'-' begin minus ∙ ap (◌∷◌ b'-') e in
      (
        b'-' ∷ ds,
        IsInteger-of_negative begin.offset last ds all f (rw (minus, line) at good),
        line,
        omega arith,
      )
  | inr other ↦
      let (ds, all, e, f) = rw other at skips in
      (ds, plain (IsPlain-of_digits begin.offset last ds all f (rw (other, e) at good)), e, f)
]

-- A view of a text that stands at a cursor.
pub view_at-eq-whole :
    (c : Cursor) (t r : List ℕ) (n : ℕ) → c.rest ≡ t ++ r → n ≡ length t → view_at c n ≡ whole t
view_at-eq-whole c t r n e f = rw (f, e, take-append t r)

integer_Reads :
    (c begin last stop : Cursor)
    → c.rest ≡ b'i' ∷ begin.rest
    → begin.offset ≡ c.offset + 1
    → IntegerBetween begin last
    → last.rest ≡ b'e' ∷ stop.rest
    → stop.offset ≡ last.offset + 1
    → Reads Encodes c
        (element (integer (view_at begin (last.offset - begin.offset))) (range c stop), stop)
integer_Reads c begin last stop p q (t, good, e, f) p' q' =
    let all : c.rest ≡ (b'i' ∷ (t ++ b'e' ∷ [])) ++ stop.rest =
      p ∙ ap (◌∷◌ b'i') (e ∙ ap (◌++◌ t) p' ∙ sym (append_assoc t (b'e' ∷ []) stop.rest)) in
    let size : stop.offset ≡ c.offset + length (b'i' ∷ (t ++ b'e' ∷ [])) =
      omega (arith, length-append t (b'e' ∷ [])) in
    let view : view_at begin (last.offset - begin.offset) ≡ whole t =
      view_at-eq-whole begin t last.rest _ e (omega arith) in
    (
      b'i' ∷ (t ++ b'e' ∷ []),
      all,
      size,
      (
        ap (λ (n : ℕ). record { start = c.offset; end = n }) size,
        subst (λ (v : View). EncodesStorage (integer v) c.offset (b'i' ∷ (t ++ b'e' ∷ [])))
            (sym view) (good, refl, refl),
      ),
    )

-- parse_integer reads an integer element or reports an error.
pub parse_integer-Ensures : (c : Cursor) → Ensures Reported (ReadsAs integer c) (parse_integer c)
unfolding parse_integer
parse_integer-Ensures c = Ensures-then (consume-Ensures b'i' _ _ c) λ _ begin (p, q).
    Ensures-then (Ensures-Stops (after_sign (at b'-' begin) begin) _ (skip_integer-Ensures _ _))
      λ last last' (same, skips). Ensures-then (consume-Ensures b'e' _ _ last') λ _ stop (p', q').
        Ensures-then (fail_if-Ensures _ _ _ stop) λ _ stop' (good, stays).
          let skipped : Skips (after_sign (at b'-' begin) begin).offset
              (after_sign (at b'-' begin) begin).rest last =
            rw same skips in
          holds (
            _,
            refl,
            integer_Reads c begin last stop' p q (between begin last skipped good)
                (rw (same, stays) p') (rw (same, stays) q'),
          )
