-- ===== src/Wire/Endian64.antt =====
-- endian_reverse of a 64-bit word in src/bittorrent_client/utils_endian.h, by its halves.
use bittorrent_client.Base.{
  ℕ, ◌+◌, ◌*◌, ◌/◌, ◌%◌, ◌^◌, ◌<◌, ◌≡◌, refl, sym, ap, ap₂, ◌∙◌, ◌++◌, arith,
}
use Prim.Native.Nat.{bit_and, bit_or}
use bittorrent_client.Base.Bits.{
  bit_and_field, bit_or_field, bit_and-zero, bit_or-zero, zero-bit_or, bit_and_ones,
}
use bittorrent_client.Wire.Endian.{
  shl, shr, word32, bit_and-word32, bit_or-word32, endian_reverse32, endian_reverse64, memory_of,
  network_of, word32-bytes, reverse32-bytes, endian_reverse32-lt, endian_reverse32-endian_reverse32,
  memory_of-endian_reverse32,
}

abbrev word64 : ℕ → ℕ → ℕ
word64 h l = h * 2 ^ 32 + l

bit_and-word64 :
    (h l h' l' : ℕ)
    → l < 2 ^ 32
    → l' < 2 ^ 32
    → bit_and (word64 h l) (word64 h' l') ≡ word64 (bit_and h h') (bit_and l l')
bit_and-word64 h l h' l' w w' = bit_and_field 32 h l h' l' w w'

bit_or-word64 :
    (h l h' l' : ℕ)
    → l < 2 ^ 32
    → l' < 2 ^ 32
    → bit_or (word64 h l) (word64 h' l') ≡ word64 (bit_or h h') (bit_or l l')
bit_or-word64 h l h' l' w w' = bit_or_field 32 h l h' l' w w'

module _ (a b c d : ℕ) (ha : a < 256) (hb : b < 256) (hc : c < 256) (hd : d < 256) where
  mask_low : bit_and (word32 a b c d) (word32 0 0 255 255) ≡ word32 0 0 c d
  mask_low =
      bit_and-word32 a b c d 0 0 255 255 hb hc hd (omega arith) (omega arith) (omega arith)
      ∙ rw (bit_and-zero a, bit_and-zero b, bit_and_ones 8 c hc, bit_and_ones 8 d hd) refl

  mask_high : bit_and (word32 a b c d) (word32 255 255 0 0) ≡ word32 a b 0 0
  mask_high =
      bit_and-word32 a b c d 255 255 0 0 hb hc hd (omega arith) (omega arith) (omega arith)
      ∙ rw (bit_and-zero c, bit_and-zero d, bit_and_ones 8 a ha, bit_and_ones 8 b hb) refl

  mask_odd : bit_and (word32 a b c d) (word32 0 255 0 255) ≡ word32 0 b 0 d
  mask_odd =
      bit_and-word32 a b c d 0 255 0 255 hb hc hd (omega arith) (omega arith) (omega arith)
      ∙ rw (bit_and-zero a, bit_and-zero c, bit_and_ones 8 b hb, bit_and_ones 8 d hd) refl

  mask_even : bit_and (word32 a b c d) (word32 255 0 255 0) ≡ word32 a 0 c 0
  mask_even =
      bit_and-word32 a b c d 255 0 255 0 hb hc hd (omega arith) (omega arith) (omega arith)
      ∙ rw (bit_and-zero b, bit_and-zero d, bit_and_ones 8 a ha, bit_and_ones 8 c hc) refl

  join_halves : bit_or (word32 c d 0 0) (word32 0 0 a b) ≡ word32 c d a b
  join_halves =
      bit_or-word32 c d 0 0 0 0 a b hd (omega arith) (omega arith) (omega arith) ha hb
      ∙ rw (bit_or-zero c, bit_or-zero d, zero-bit_or a, zero-bit_or b) refl

  join_bytes : bit_or (word32 b 0 d 0) (word32 0 a 0 c) ≡ word32 b a d c
  join_bytes =
      bit_or-word32 b 0 d 0 0 a 0 c (omega arith) hd (omega arith) ha (omega arith) hc
      ∙ rw (bit_or-zero b, bit_or-zero d, zero-bit_or a, zero-bit_or c) refl

  word32-lt : word32 a b c d < 2 ^ 32
  word32-lt = omega arith

abbrev step16 : ℕ → ℕ
step16 x = bit_or (shl 64 (bit_and x 0x0000ffff0000ffff) 16) (shr (bit_and x 0xffff0000ffff0000) 16)

abbrev step8 : ℕ → ℕ
step8 x = bit_or (shl 64 (bit_and x 0x00ff00ff00ff00ff) 8) (shr (bit_and x 0xff00ff00ff00ff00) 8)

swap_words :
    (h l : ℕ)
    → h < 2 ^ 32
    → l < 2 ^ 32
    → bit_or (shl 64 (word64 h l) 32) (shr (word64 h l) 32) ≡ word64 l h
swap_words h l hh hl =
    let left : shl 64 (word64 h l) 32 ≡ word64 l 0 = omega arith in
    let right : shr (word64 h l) 32 ≡ word64 0 h = omega arith in
    rw (left, right)
      (bit_or-word64 l 0 0 h (omega arith) hh ∙ rw (bit_or-zero l, zero-bit_or h) refl)

module _ (a b c d e f g h : ℕ) (ha : a < 256) (hb : b < 256) (hc : c < 256) (hd : d < 256)
    (he : e < 256) (hf : f < 256) (hg : g < 256) (hh : h < 256) where
  -- The exchange of the 16-bit halves of each 32-bit word.
  step16_lem :
      let x : ℕ = word64 (word32 a b c d) (word32 e f g h) in
      bit_or (shl 64 (bit_and x 0x0000ffff0000ffff) 16) (shr (bit_and x 0xffff0000ffff0000) 16)
      ≡ word64 (word32 c d a b) (word32 g h e f)
  step16_lem =
      let low : bit_and (word64 (word32 a b c d) (word32 e f g h)) 0x0000ffff0000ffff
          ≡ word64 (word32 0 0 c d) (word32 0 0 g h) =
        bit_and-word64 (word32 a b c d) (word32 e f g h) (word32 0 0 255 255) (word32 0 0 255 255)
          (omega arith) (omega arith)
        ∙ ap₂ word64 (mask_low a b c d ha hb hc hd) (mask_low e f g h he hf hg hh) in
      let high : bit_and (word64 (word32 a b c d) (word32 e f g h)) 0xffff0000ffff0000
          ≡ word64 (word32 a b 0 0) (word32 e f 0 0) =
        bit_and-word64 (word32 a b c d) (word32 e f g h) (word32 255 255 0 0) (word32 255 255 0 0)
          (omega arith) (omega arith)
        ∙ ap₂ word64 (mask_high a b c d ha hb hc hd) (mask_high e f g h he hf hg hh) in
      let left : shl 64 (word64 (word32 0 0 c d) (word32 0 0 g h)) 16
          ≡ word64 (word32 c d 0 0) (word32 g h 0 0) =
        omega arith in
      let right : shr (word64 (word32 a b 0 0) (word32 e f 0 0)) 16
          ≡ word64 (word32 0 0 a b) (word32 0 0 e f) =
        omega arith in
      ap₂ (λ x y. bit_or (shl 64 x 16) (shr y 16)) low high
      ∙ ap₂ bit_or left right
      ∙ bit_or-word64 (word32 c d 0 0) (word32 g h 0 0) (word32 0 0 a b) (word32 0 0 e f)
          (omega arith) (omega arith)
      ∙ ap₂ word64 (join_halves a b c d ha hb hc hd) (join_halves e f g h he hf hg hh)

  -- The exchange of the bytes of each 16-bit word.
  step8_lem :
      let x : ℕ = word64 (word32 a b c d) (word32 e f g h) in
      bit_or (shl 64 (bit_and x 0x00ff00ff00ff00ff) 8) (shr (bit_and x 0xff00ff00ff00ff00) 8)
      ≡ word64 (word32 b a d c) (word32 f e h g)
  step8_lem =
      let odd : bit_and (word64 (word32 a b c d) (word32 e f g h)) 0x00ff00ff00ff00ff
          ≡ word64 (word32 0 b 0 d) (word32 0 f 0 h) =
        bit_and-word64 (word32 a b c d) (word32 e f g h) (word32 0 255 0 255) (word32 0 255 0 255)
          (omega arith) (omega arith)
        ∙ ap₂ word64 (mask_odd a b c d ha hb hc hd) (mask_odd e f g h he hf hg hh) in
      let even : bit_and (word64 (word32 a b c d) (word32 e f g h)) 0xff00ff00ff00ff00
          ≡ word64 (word32 a 0 c 0) (word32 e 0 g 0) =
        bit_and-word64 (word32 a b c d) (word32 e f g h) (word32 255 0 255 0) (word32 255 0 255 0)
          (omega arith) (omega arith)
        ∙ ap₂ word64 (mask_even a b c d ha hb hc hd) (mask_even e f g h he hf hg hh) in
      let left : shl 64 (word64 (word32 0 b 0 d) (word32 0 f 0 h)) 8
          ≡ word64 (word32 b 0 d 0) (word32 f 0 h 0) =
        omega arith in
      let right : shr (word64 (word32 a 0 c 0) (word32 e 0 g 0)) 8
          ≡ word64 (word32 0 a 0 c) (word32 0 e 0 g) =
        omega arith in
      ap₂ (λ x y. bit_or (shl 64 x 8) (shr y 8)) odd even
      ∙ ap₂ bit_or left right
      ∙ bit_or-word64 (word32 b 0 d 0) (word32 f 0 h 0) (word32 0 a 0 c) (word32 0 e 0 g)
          (omega arith) (omega arith)
      ∙ ap₂ word64 (join_bytes a b c d ha hb hc hd) (join_bytes e f g h he hf hg hh)

module _ (a b c d e f g h : ℕ) (ha : a < 256) (hb : b < 256) (hc : c < 256) (hd : d < 256)
    (he : e < 256) (hf : f < 256) (hg : g < 256) (hh : h < 256) where
  reverse64_lem :
      endian_reverse64 (word64 (word32 a b c d) (word32 e f g h))
      ≡ word64 (word32 h g f e) (word32 d c b a)
  unfolding endian_reverse64
  reverse64_lem =
      ap (λ y. step8 (step16 y))
        (swap_words (word32 a b c d) (word32 e f g h) (omega arith) (omega arith))
      ∙ ap step8 (step16_lem e f g h a b c d he hf hg hh ha hb hc hd)
      ∙ step8_lem g h e f c d a b hg hh he hf hc hd ha hb

pub reverse64-halves :
    (x : ℕ)
    → x < 2 ^ 64
    → endian_reverse64 x ≡ word64 (endian_reverse32 (x % 2 ^ 32)) (endian_reverse32 (x / 2 ^ 32))
reverse64-halves x h =
    let hi : ℕ = x / 2 ^ 32 in
    let lo : ℕ = x % 2 ^ 32 in
    ap endian_reverse64 (omega (arith, word32-bytes hi, word32-bytes lo))
    ∙ reverse64_lem (hi / 256 / 256 / 256) (hi / 256 / 256 % 256) (hi / 256 % 256) (hi % 256)
        (lo / 256 / 256 / 256) (lo / 256 / 256 % 256) (lo / 256 % 256) (lo % 256) (omega arith)
        (omega arith) (omega arith) (omega arith) (omega arith) (omega arith) (omega arith)
        (omega arith)
    ∙ sym (ap₂ word64 (reverse32-bytes lo (omega arith)) (reverse32-bytes hi (omega arith)))

memory_of-word64 :
    (h l : ℕ) → h < 2 ^ 32 → l < 2 ^ 32 → memory_of 8 (word64 h l) ≡ memory_of 4 l ++ memory_of 4 h
unfolding memory_of
memory_of-word64 h l hh hl = ground arith

network_of-halves :
    (x : ℕ) → x < 2 ^ 64 → network_of 4 (x / 2 ^ 32) ++ network_of 4 (x % 2 ^ 32) ≡ network_of 8 x
unfolding network_of
network_of-halves x h = ground arith

-- On this machine the memory of a reversed 64-bit word is the word in network order.
pub memory_of-endian_reverse64 :
    (x : ℕ) → x < 2 ^ 64 → memory_of 8 (endian_reverse64 x) ≡ network_of 8 x
memory_of-endian_reverse64 x h =
    ap (memory_of 8) (reverse64-halves x h)
    ∙ memory_of-word64 (endian_reverse32 (x % 2 ^ 32)) (endian_reverse32 (x / 2 ^ 32))
        (endian_reverse32-lt (x % 2 ^ 32) (omega arith))
        (endian_reverse32-lt (x / 2 ^ 32) (omega arith))
    ∙ ap₂ ◌++◌ (memory_of-endian_reverse32 (x / 2 ^ 32) (omega arith))
        (memory_of-endian_reverse32 (x % 2 ^ 32) (omega arith))
    ∙ network_of-halves x h

pub endian_reverse64-lt : (x : ℕ) → x < 2 ^ 64 → endian_reverse64 x < 2 ^ 64
endian_reverse64-lt x h =
    let wl : endian_reverse32 (x % 2 ^ 32) < 2 ^ 32 =
      endian_reverse32-lt (x % 2 ^ 32) (omega arith) in
    let wh : endian_reverse32 (x / 2 ^ 32) < 2 ^ 32 =
      endian_reverse32-lt (x / 2 ^ 32) (omega arith) in
    omega (arith, reverse64-halves x h)

-- Reversing the bytes of a 64-bit word twice gives the word back.
pub endian_reverse64-endian_reverse64 :
    (x : ℕ) → x < 2 ^ 64 → endian_reverse64 (endian_reverse64 x) ≡ x
endian_reverse64-endian_reverse64 x h =
    let hi : ℕ = x / 2 ^ 32 in
    let lo : ℕ = x % 2 ^ 32 in
    let y : ℕ = word64 (endian_reverse32 lo) (endian_reverse32 hi) in
    let wl : endian_reverse32 lo < 2 ^ 32 = endian_reverse32-lt lo (omega arith) in
    let wh : endian_reverse32 hi < 2 ^ 32 = endian_reverse32-lt hi (omega arith) in
    let low : y % 2 ^ 32 ≡ endian_reverse32 hi = omega arith in
    let high : y / 2 ^ 32 ≡ endian_reverse32 lo = omega arith in
    ap endian_reverse64 (reverse64-halves x h)
    ∙ reverse64-halves y (omega arith)
    ∙ ap₂ (λ u v. word64 (endian_reverse32 u) (endian_reverse32 v)) low high
    ∙ ap₂ word64 (endian_reverse32-endian_reverse32 hi (omega arith))
        (endian_reverse32-endian_reverse32 lo (omega arith))
    ∙ omega arith
