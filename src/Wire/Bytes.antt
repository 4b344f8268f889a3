-- ===== src/Wire/Bytes.antt =====
-- BytesWriter and BytesReader of src/small_utils/include/small_utils/utils_bytes.h.
use bittorrent_client.Base.{
  ℕ, ◌-◌, ◌^◌, ◌≡◌, sym, Bool, true, false, ◌&&◌, not, Option, none, some, List, [], ◌∷◌, ◌++◌,
  arith, ltb, leb, le→leb, ◌==◌, if◌then◌else◌, length, take, drop, take-append, drop-append,
  length-append, append-nil, append_assoc, ap, ◌∙◌,
}

-- A buffer of which `written` is filled and `room` bytes are left: `end_ - current_`.
pub record BytesWriter : Type 0 where
  pub written : List ℕ
  pub room : ℕ

-- A function that may fail an `assert`: `none`.
infixl 5 ◌>>=◌
abbrev pub ◌>>=◌ {ℓ κ} : {A : Type ℓ} {B : Type κ} → Option A → (A → Option B) → Option B
none >>= f = none
some a >>= f = f a

unfoldable pub make_writer : ℕ → BytesWriter
make_writer n = record { written = []; room = n }

unfoldable pub write_data : List ℕ → BytesWriter → Option BytesWriter
write_data bytes w =
    if leb (length bytes) w.room
    then some (record { written = w.written ++ bytes; room = w.room - length bytes })
    else none

-- finalize, and the buffer that the caller returns.
unfoldable pub finalize_writer : BytesWriter → Option (List ℕ)
finalize_writer w = if w.room == 0 then some w.written else none

-- A chain of writes that ends with finalize.
unfoldable pub write_all : List (List ℕ) → BytesWriter → Option (List ℕ)
unfolding write_data finalize_writer
write_all [] w = finalize_writer w
write_all (bytes ∷ parts) w = write_data bytes w >>= write_all parts

abbrev pub concat : List (List ℕ) → List ℕ
concat [] = []
concat (xs ∷ xss) = xs ++ concat xss

pub write_all-concat :
    (parts : List (List ℕ)) (w : BytesWriter)
    → w.room ≡ length (concat parts)
    → write_all parts w ≡ some (w.written ++ concat parts)
unfolding write_all
write_all-concat [] w h = ground (arith, append-nil w.written)
write_all-concat (bytes ∷ parts) w h =
    rw (le→leb (length bytes) w.room (omega (arith, length-append bytes (concat parts)))) (
      write_all-concat parts (record { written = w.written ++ bytes; room = w.room - length bytes })
        (omega (arith, length-append bytes (concat parts)))
      ∙ ap some (append_assoc w.written bytes (concat parts)))

-- The bytes of [current_, end_), and whether every read so far found what it asked for.
pub record BytesReader : Type 0 where
  pub rest : List ℕ
  pub valid : Bool

unfoldable pub make_reader : List ℕ → BytesReader
make_reader bytes = record { rest = bytes; valid = not (length bytes == 0) }

-- read_data and consume: the bytes that go to the caller's variable, which holds `old` before.
unfoldable pub read_data : ℕ → List ℕ → BytesReader → List ℕ × BytesReader
read_data size old r =
    if r.valid
    then (if ltb (length r.rest) size
        then (old, record r { valid = false })
        else (take size r.rest, record r { rest = drop size r.rest }))
    else (old, r)

unfoldable pub finalize_reader : BytesReader → Bool
finalize_reader r = r.valid && length r.rest == 0

unfoldable pub get_remaining : BytesReader → ℕ
get_remaining r = if r.valid then length r.rest else 2 ^ 64 - 1

-- A read from a valid reader that has the bytes.
pub read_data-append :
    (s r old : List ℕ)
    → read_data (length s) old (record { rest = s ++ r; valid = true })
      ≡ (s, record { rest = r; valid = true })
unfolding read_data
read_data-append s r old = ground (arith, take-append s r, drop-append s r, length-append s r)

-- A read of as many bytes as come next.
pub read_next :
    (n : ℕ) (s r old : List ℕ)
    → length s ≡ n
    → read_data n old (record { rest = s ++ r; valid = true })
      ≡ (s, record { rest = r; valid = true })
read_next n s r old h = rw (sym h) (read_data-append s r old)

pub read_last :
    (n : ℕ) (s old : List ℕ)
    → length s ≡ n
    → read_data n old (record { rest = s; valid = true }) ≡ (s, record { rest = []; valid = true })
read_last n s old h =
    ap (λ (t : List ℕ). read_data n old (record { rest = t; valid = true })) (sym (append-nil s))
    ∙ read_next n s [] old h

pub make_reader-cons :
    (b : ℕ) (s : List ℕ) → make_reader (b ∷ s) ≡ record { rest = b ∷ s; valid = true }
unfolding make_reader
make_reader-cons b s = ground arith
