-- ===== src/Wire/Endian.antt =====
-- src/bittorrent_client/utils_endian.h, on a little-endian machine: a word in memory is its bytes,
-- the lowest first.
use bittorrent_client.Base.{
  ℕ, zero, suc, ◌+◌, ◌*◌, ◌/◌, ◌%◌, ◌^◌, ◌<◌, ◌≡◌, refl, sym, ap, ap₂, ◌∙◌, List, [], ◌∷◌, ◌++◌,
  arith, length,
}
use Prim.Native.Nat.{bit_and, bit_or}
use bittorrent_client.Base.Bits.{
  bit_and_field, bit_or_field, bit_and-zero, bit_or-zero, zero-bit_or, bit_and_ones,
}

-- `x << k` in a word of `w` bits, and `x >> k`.
abbrev pub shl : ℕ → ℕ → ℕ → ℕ
shl w x k = (x * 2 ^ k) % 2 ^ w

abbrev pub shr : ℕ → ℕ → ℕ
shr x k = x / 2 ^ k

unfoldable pub endian_reverse16 : ℕ → ℕ
endian_reverse16 x = bit_or (shl 16 x 8) (shr x 8)

unfoldable pub endian_reverse32 : ℕ → ℕ
endian_reverse32 x =
    let step16 : ℕ = bit_or (shl 32 x 16) (shr x 16) in
    bit_or (bit_and (shl 32 step16 8) 0xff00ff00) (bit_and (shr step16 8) 0x00ff00ff)

unfoldable pub endian_reverse64 : ℕ → ℕ
endian_reverse64 x =
    let step32 : ℕ = bit_or (shl 64 x 32) (shr x 32) in
    let step16 : ℕ =
      bit_or (shl 64 (bit_and step32 0x0000ffff0000ffff) 16)
        (shr (bit_and step32 0xffff0000ffff0000) 16) in
    bit_or (shl 64 (bit_and step16 0x00ff00ff00ff00ff) 8)
      (shr (bit_and step16 0xff00ff00ff00ff00) 8)

-- The `n` bytes of a word, the lowest first: its memory on this machine.
unfoldable pub memory_of : ℕ → ℕ → List ℕ
memory_of zero x = []
memory_of (suc n) x = (x % 256) ∷ memory_of n (x / 256)

-- The word that bytes in memory stand for.
unfoldable pub word_of : List ℕ → ℕ
word_of [] = 0
word_of (b ∷ bs) = b + 256 * word_of bs

-- The `n` bytes of a word, the highest first: network order.
unfoldable pub network_of : ℕ → ℕ → List ℕ
network_of zero x = []
network_of (suc n) x = network_of n (x / 256) ++ (x % 256) ∷ []

reverse16_lem : (a b : ℕ) → a < 256 → b < 256 → endian_reverse16 (a * 256 + b) ≡ b * 256 + a
unfolding endian_reverse16
reverse16_lem a b ha hb =
    ground (arith, bit_or_field 8 b 0 0 a (omega arith) ha, bit_or-zero b, zero-bit_or a)

-- A word of four bytes, the highest first.
abbrev pub word32 : ℕ → ℕ → ℕ → ℕ → ℕ
word32 a b c d = ((a * 256 + b) * 256 + c) * 256 + d

module _ (a b c d a' b' c' d' : ℕ) (hb : b < 256) (hc : c < 256) (hd : d < 256) (hb' : b' < 256)
    (hc' : c' < 256) (hd' : d' < 256) where
  pub bit_and-word32 :
      bit_and (word32 a b c d) (word32 a' b' c' d')
      ≡ word32 (bit_and a a') (bit_and b b') (bit_and c c') (bit_and d d')
  bit_and-word32 = omega (
    arith,
    bit_and_field 8 ((a * 256 + b) * 256 + c) d ((a' * 256 + b') * 256 + c') d' hd hd',
    bit_and_field 8 (a * 256 + b) c (a' * 256 + b') c' hc hc',
    bit_and_field 8 a b a' b' hb hb',
  )

  pub bit_or-word32 :
      bit_or (word32 a b c d) (word32 a' b' c' d')
      ≡ word32 (bit_or a a') (bit_or b b') (bit_or c c') (bit_or d d')
  bit_or-word32 = omega (
    arith,
    bit_or_field 8 ((a * 256 + b) * 256 + c) d ((a' * 256 + b') * 256 + c') d' hd hd',
    bit_or_field 8 (a * 256 + b) c (a' * 256 + b') c' hc hc',
    bit_or_field 8 a b a' b' hb hb',
  )

swap_halves :
    (h l : ℕ)
    → h < 65536
    → l < 65536
    → bit_or (shl 32 (h * 65536 + l) 16) (shr (h * 65536 + l) 16) ≡ l * 65536 + h
swap_halves h l hh hl =
    let left : shl 32 (h * 65536 + l) 16 ≡ l * 2 ^ 16 + 0 = omega arith in
    let right : shr (h * 65536 + l) 16 ≡ 0 * 2 ^ 16 + h = omega arith in
    rw (left, right)
      (omega
        (arith, bit_or_field 16 l 0 0 h (omega arith) (omega arith), bit_or-zero l, zero-bit_or h))

reverse32_lem :
    (a b c d : ℕ)
    → a < 256
    → b < 256
    → c < 256
    → d < 256
    → endian_reverse32 (word32 a b c d) ≡ word32 d c b a
unfolding endian_reverse32
reverse32_lem a b c d ha hb hc hd =
    let x : word32 a b c d ≡ (a * 256 + b) * 65536 + (c * 256 + d) = omega arith in
    let halves : bit_or (shl 32 (word32 a b c d) 16) (shr (word32 a b c d) 16) ≡ word32 c d a b =
      rw x (swap_halves (a * 256 + b) (c * 256 + d) (omega arith) (omega arith) ∙ omega arith) in
    let left : shl 32 (word32 c d a b) 8 ≡ word32 d a b 0 = omega arith in
    let right : shr (word32 c d a b) 8 ≡ word32 0 c d a = omega arith in
    rw (halves, left, right)
      (ap₂ bit_or
          (bit_and-word32 d a b 0 255 0 255 0 ha hb (omega arith) (omega arith) (omega arith)
            (omega arith))
          (bit_and-word32 0 c d a 0 255 0 255 hc hd ha (omega arith) (omega arith) (omega arith))
        ∙ rw
            (
              bit_and_ones 8 d hd,
              bit_and-zero a,
              bit_and_ones 8 b hb,
              bit_and_ones 8 c hc,
              bit_and-zero d,
              bit_and_ones 8 a ha,
            )
            (bit_or-word32 d 0 b 0 0 c 0 a (omega arith) hb (omega arith) hc (omega arith) ha
              ∙ rw (bit_or-zero d, zero-bit_or c, bit_or-zero b, zero-bit_or a)))

pub word32-bytes :
    (x : ℕ) → x ≡ word32 (x / 256 / 256 / 256) (x / 256 / 256 % 256) (x / 256 % 256) (x % 256)
word32-bytes x = omega arith

-- The bytes of a word, the other way round.
pub reverse32-bytes :
    (x : ℕ)
    → x < 2 ^ 32
    → endian_reverse32 x
      ≡ word32 (x % 256) (x / 256 % 256) (x / 256 / 256 % 256) (x / 256 / 256 / 256)
reverse32-bytes x h =
    ap endian_reverse32 (word32-bytes x)
    ∙ reverse32_lem (x / 256 / 256 / 256) (x / 256 / 256 % 256) (x / 256 % 256) (x % 256)
        (omega arith) (omega arith) (omega arith) (omega arith)

pub endian_reverse32-lt : (x : ℕ) → x < 2 ^ 32 → endian_reverse32 x < 2 ^ 32
endian_reverse32-lt x h = omega (arith, reverse32-bytes x h)

-- Reversing the bytes of a 32-bit word twice gives the word back.
pub endian_reverse32-endian_reverse32 :
    (x : ℕ) → x < 2 ^ 32 → endian_reverse32 (endian_reverse32 x) ≡ x
endian_reverse32-endian_reverse32 x h =
    ap endian_reverse32 (reverse32-bytes x h)
    ∙ reverse32_lem (x % 256) (x / 256 % 256) (x / 256 / 256 % 256) (x / 256 / 256 / 256)
        (omega arith) (omega arith) (omega arith) (omega arith)
    ∙ sym (word32-bytes x)

-- On this machine the memory of a reversed word is the word in network order.
pub memory_of-endian_reverse32 :
    (x : ℕ) → x < 2 ^ 32 → memory_of 4 (endian_reverse32 x) ≡ network_of 4 x
unfolding memory_of network_of
memory_of-endian_reverse32 x h = ground (arith, reverse32-bytes x h)

-- The memory of a word of 16 bits whose bytes were reversed is the word in network order: the high byte, then the
-- low one.
pub memory_of-endian_reverse16 :
    (x : ℕ) → x < 2 ^ 16 → memory_of 2 (endian_reverse16 x) ≡ network_of 2 x
unfolding memory_of network_of
memory_of-endian_reverse16 x h =
    ground (arith, reverse16_lem (x / 256) (x % 256) (omega arith) (omega arith))

pub length-memory_of : (n x : ℕ) → length (memory_of n x) ≡ n
unfolding memory_of
length-memory_of zero x = refl
length-memory_of (suc n) x = ap suc (length-memory_of n (x / 256))

-- What was stored is loaded.
pub word_of-memory_of : (x : ℕ) → x < 2 ^ 32 → word_of (memory_of 4 x) ≡ x
unfolding word_of memory_of
word_of-memory_of x h = omega arith
