-- ===== src/Bencode/Length.antt =====
-- ParseLength of src/small_utils/include/small_utils/utils_string.h, on the branch that has
-- <charconv>: the decimal digits of an unsigned 64-bit number, and nothing else.
use bittorrent_client.Base.{
  ℕ, ◌+◌, ◌-◌, ◌*◌, ◌^◌, ◌<◌, ◌≡◌, refl, Bool, true, ◌&&◌, Option, none, some, List, [], ◌∷◌, arith,
  ltb, leb, ◌==◌, if◌then◌else◌, length, All, subst,
}

abbrev pub u64_mod : ℕ
u64_mod = 2 ^ 64

-- std::isdigit.
unfoldable pub is_digit : ℕ → Bool
is_digit c = leb b'0' c && leb c b'9'

-- The digits at the front, and what follows them.
unfoldable pub digits_of : List ℕ → List ℕ
digits_of [] = []
digits_of (c ∷ cs) = if is_digit c then c ∷ digits_of cs else []

unfoldable pub after_digits : List ℕ → List ℕ
after_digits [] = []
after_digits (c ∷ cs) = if is_digit c then after_digits cs else c ∷ cs

-- The number that digits stand for, most significant first.
unfoldable pub decimal_from : ℕ → List ℕ → ℕ
decimal_from acc [] = acc
decimal_from acc (c ∷ cs) = decimal_from (acc * 10 + (c - b'0')) cs

abbrev pub decimal : List ℕ → ℕ
decimal = decimal_from 0

pub data Errc : Type 0 where
  no_error invalid_argument result_out_of_range : Errc

-- std::from_chars on an unsigned 64-bit number, base 10: what it leaves unread, its error, and the
-- number where there is none. It reads all the digits at the front, also of a number too large.
pub record FromChars : Type 0 where
  pub rest : List ℕ
  pub ec : Errc
  pub number : ℕ

unfoldable pub from_chars : List ℕ → FromChars
unfolding digits_of after_digits decimal_from
from_chars s =
    if length (digits_of s) == 0
    then record { rest = s; ec = invalid_argument; number = 0 }
    else (if ltb (decimal (digits_of s)) u64_mod
        then record { rest = after_digits s; ec = no_error; number = decimal (digits_of s) }
        else record { rest = after_digits s; ec = result_out_of_range; number = 0 })

-- `(result.ptr != end) || (result.ec != std::errc())` fails.
abbrev accept : List ℕ → Errc → ℕ → Option ℕ
accept [] no_error n = some n
accept _ _ n = none

unfoldable pub parse_length : List ℕ → Option ℕ
unfolding from_chars
parse_length s = let r = from_chars s in accept r.rest r.ec r.number

-- A text of digits only.
abbrev pub AllDigits : List ℕ → Type 0
AllDigits = All (λ c. is_digit c ≡ true)

digits_of-AllDigits : (s : List ℕ) → AllDigits (digits_of s)
unfolding digits_of
digits_of-AllDigits [] = tt
digits_of-AllDigits (c ∷ cs) = ground (arith, digits_of-AllDigits cs)

digits_of-all : (s : List ℕ) → AllDigits s → digits_of s ≡ s
unfolding digits_of
digits_of-all [] h = refl
digits_of-all (c ∷ cs) h = ground (arith, digits_of-all cs h.1)

after_digits-all : (s : List ℕ) → AllDigits s → after_digits s ≡ []
unfolding after_digits
after_digits-all [] h = refl
after_digits-all (c ∷ cs) h = ground (arith, after_digits-all cs h.1)

after_digits-nil : (s : List ℕ) → after_digits s ≡ [] → digits_of s ≡ s
unfolding after_digits digits_of
after_digits-nil [] h = refl
after_digits-nil (c ∷ cs) h = ground (arith, after_digits-nil cs)

-- What `parse_length` reads: at least one digit, nothing but digits, and a number below 2 ^ 64.
pub record IsLength (s : List ℕ) (n : ℕ) : Type 0 where
  pub digits : AllDigits s
  pub some_digit : 0 < length s
  pub value : decimal s ≡ n
  pub fits : n < u64_mod

-- Every such text is read as its number.
pub parse_length_complete : (s : List ℕ) (n : ℕ) → IsLength s n → parse_length s ≡ some n
unfolding parse_length
parse_length_complete s n h =
    ground
      (arith, digits_of-all s h.digits, after_digits-all s h.digits, h.value, h.fits, h.some_digit)

accept-eq-some :
    (r : List ℕ) (e : Errc) (n m : ℕ) → accept r e n ≡ some m → (r ≡ []) × (e ≡ no_error) × (n ≡ m)
accept-eq-some [] no_error n m h = ground arith
accept-eq-some [] _ n m h = cc
accept-eq-some (x ∷ r) e n m h = cc

-- A text that ParseLength reads as a number consists of digits only, at least one, and the number is the one
-- that they stand for in base 10, below 2 ^ 64.
pub parse_length_sound : (s : List ℕ) (n : ℕ) → parse_length s ≡ some n → IsLength s n
unfolding parse_length
parse_length_sound s n h =
    let c : FromChars = from_chars s in
    let (done, good, same) = accept-eq-some c.rest c.ec c.number n h in
    let whole_text : digits_of s ≡ s = ground (arith, done, good, after_digits-nil s) in
    record {
      digits = subst AllDigits whole_text (digits_of-AllDigits s);
      some_digit = ground (arith, done, good, whole_text);
      value = ground (arith, done, good, whole_text, same);
      fits = ground (arith, done, good, whole_text, same);
    }
