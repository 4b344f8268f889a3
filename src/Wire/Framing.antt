-- ===== src/Wire/Framing.antt =====
-- Message_Base::ReadAnyMessage and the frames it reads: a length in network order, and so many bytes.
use bittorrent_client.Base.{
  ℕ, ◌^◌, ◌<◌, ◌≡◌, refl, sym, ap, ◌∙◌, List, ◌++◌, ok, err, ◌>>=◌, arith, le→leb, ◌==◌,
  if◌then◌else◌, length, length-append, take-append, drop-append,
}
use bittorrent_client.Wire.Endian.{
  endian_reverse32, network_of, memory_of-endian_reverse32, endian_reverse32-lt,
  endian_reverse32-endian_reverse32, word_of-memory_of, length-memory_of,
}
use bittorrent_client.Wire.Messages.{
  end_of_stream, big32, from_big32, keep_alive_message, make_message, async_read, first_byte,
  read_any_message,
}

-- native_to_big writes a word in network order.
pub big32-network : (x : ℕ) → x < 2 ^ 32 → big32 x ≡ network_of 4 x
unfolding big32
big32-network x h = memory_of-endian_reverse32 x h

pub from_big32-big32 : (x : ℕ) → x < 2 ^ 32 → from_big32 (big32 x) ≡ x
unfolding from_big32 big32
from_big32-big32 x h =
    ap endian_reverse32 (word_of-memory_of (endian_reverse32 x) (endian_reverse32-lt x h))
    ∙ endian_reverse32-endian_reverse32 x h

pub length-big32 : (x : ℕ) → length (big32 x) ≡ 4
unfolding big32
length-big32 x = length-memory_of 4 (endian_reverse32 x)

-- The frame of a message: its length, and it.
abbrev pub frame : List ℕ → List ℕ
frame payload = network_of 4 (length payload) ++ payload

pub async_read-append :
    (s rest : List ℕ) (n : ℕ) → length s ≡ n → async_read n (s ++ rest) ≡ ok (s, rest)
async_read-append s rest n h =
    rw (sym h, le→leb (length s) (length (s ++ rest)) (omega (arith, length-append s rest)))
      (rw (take-append s rest, drop-append s rest) refl)

pub async_read-short : (n : ℕ) (s : List ℕ) → length s < n → async_read n s ≡ err end_of_stream
async_read-short n s h = ground arith

-- After a length of `n`, `n` bytes are read, and the first of them selects the message.
pub read_any_message-prefix :
    (n : ℕ) (s : List ℕ)
    → n < 2 ^ 32
    → read_any_message (big32 n ++ s) ≡ (
        if n == 0
        then ok (keep_alive_message, s)
        else (async_read n s >>= λ (payload, rest).
            make_message (first_byte payload) payload >>= λ m. ok (m, rest)))
unfolding read_any_message
read_any_message-prefix n s h =
    rw (async_read-append (big32 n) s 4 (length-big32 n), from_big32-big32 n h) refl
