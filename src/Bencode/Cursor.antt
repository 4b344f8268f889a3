-- ===== src/Bencode/Cursor.antt =====
-- The state of `Parser` in src/bencoding/src/be_element_ref_parse.cpp, and its smallest steps.
use bittorrent_client.Base.{
  ℕ, ◌+◌, ◌^◌, ◌≤◌, Bool, true, false, List, [], ◌∷◌, Result, ok, err, ltb, ◌==◌, if◌then◌else◌,
  take, drop,
}
use bittorrent_client.Bencode.Errors.{ParseErrorc}
use bittorrent_client.Bencode.Elements.{ElementId, ElementPosition, View}

-- `offset` is `current_ - start_`, and `rest` holds the bytes of [current_, end_): none when
-- `current_` has reached or passed `end_`.
pub record Cursor : Type 0 where
  pub offset : ℕ
  pub rest : List ℕ

-- ParseErrorInfo of src/bencoding/include/bencoding/be_element_ref_parse.h.
pub record ParseErrorInfo : Type 0 where
  pub ec : ParseErrorc
  pub offset : ℕ
  pub element : ElementId

-- `assertion_failed` stands for an `assert` that does not hold; `out_of_fuel` has no counterpart in
-- the program. `address_overflow n` ends the model where the program adds to an address a count `n` so
-- large that the sum may wrap around, which C++ leaves undefined: nothing is said of what follows.
pub data Failure : Type 0 where
  parse_error : ParseErrorInfo → Failure
  address_overflow : ℕ → Failure
  assertion_failed out_of_fuel : Failure

-- From this count on, the sum with an address in the lower half of the 64-bit addresses may wrap around.
abbrev pub address_limit : ℕ
address_limit = 2 ^ 63

-- The model ends at a count that large.
abbrev pub IsOverflow : Failure → Type 0
IsOverflow (address_overflow n) = address_limit ≤ n
IsOverflow f = ⊥

-- A failure that the program reports by its result, or the end of the model at an address.
abbrev pub Reported : Failure → Type 0
Reported (parse_error i) = Unit {0}
Reported f = IsOverflow f

abbrev pub Parser {ℓ} : Type ℓ → Type ℓ
Parser A = Cursor → Result Failure (A × Cursor)

abbrev pub return {ℓ} : {A : Type ℓ} → A → Parser A
return a c = ok (a, c)

abbrev pub then_parse {ℓ κ} :
    {A : Type ℓ} {B : Type κ}
    → Result Failure (A × Cursor)
    → (A → Parser B)
    → Result Failure (B × Cursor)
then_parse (ok (a, c)) f = f a c
then_parse (err e) f = err e

infixl 5 ◌>>=◌ ◌>>◌
abbrev pub ◌>>=◌ {ℓ κ} : {A : Type ℓ} {B : Type κ} → Parser A → (A → Parser B) → Parser B
p >>= f = λ c. then_parse (p c) f

abbrev pub ◌>>◌ {ℓ} : {B : Type ℓ} → Parser (Unit {0}) → Parser B → Parser B
p >> q = p >>= λ _. q

-- `return make_error(element, e)`.
abbrev pub make_error {ℓ} : {A : Type ℓ} → ElementId → ParseErrorc → Parser A
make_error id e c = err (parse_error (record { ec = e; offset = c.offset; element = id }))

abbrev pub starts_with : List ℕ → ℕ → Bool
starts_with [] ch = false
starts_with (c ∷ cs) ch = c == ch

unfoldable pub has_data : Cursor → Bool
has_data c = elim c.rest [ [] ↦ false | _ ∷ _ ↦ true ]

-- `has_data() && (*current_ == ch)`.
unfoldable pub at : ℕ → Cursor → Bool
at ch c = starts_with c.rest ch

abbrev pub advance : ℕ → Cursor → Cursor
advance n c = record { offset = c.offset + n; rest = drop n c.rest }

-- `if (!consume(ch)) return make_error(element, e)`.
unfoldable pub consume : ℕ → ElementId → ParseErrorc → Parser (Unit {0})
unfolding at
consume ch id e c = if at ch c then ok (tt, advance 1 c) else make_error id e c

-- `if (!consume_n(count)) return make_error(element, e)`. The test `start_ + count < end_` compares `count`
-- with the size of the whole buffer, `total`, wherever `current_` stands, as long as the sum does not wrap
-- around. It does not for a count below `total`, for `start_ + total` is the address `end_`, nor for one below
-- `address_limit`.
unfoldable pub consume_n : ℕ → ℕ → ElementId → ParseErrorc → Parser (Unit {0})
consume_n total count id e c =
    if ltb count total
    then ok (tt, advance count c)
    else (if ltb count address_limit then make_error id e c else err (address_overflow count))

-- `std::string_view(current_, n)`.
abbrev pub view_at : Cursor → ℕ → View
view_at c n = record { size = n; bytes = take n c.rest }

-- RememberPosition(*this) at `from`, and its `get()` at `to`.
abbrev pub range : Cursor → Cursor → ElementPosition
range from to = record { start = from.offset; end = to.offset }
