-- ===== src/Base/Bits.antt =====
-- `&` and `|` on words, by fields of bits: both work on the high and the low bits apart.
use Prim.Native.Nat.{
  ℕ, zero, suc, ◌+◌, ◌-◌, ◌*◌, ◌/◌, ◌%◌, ◌^◌, ◌≤◌, ◌<◌, min, max, digits, bit_and, bit_or,
  bit_and-bitwise, bit_or-bitwise,
}
use mathlib.Core.Path.{◌≡◌, refl, ap, sym, ◌∙◌}
use native.Mathlib.Nat.{pow-suc, one-le-pow}
use native.Mathlib.Omega.{arith}

-- The recursion on digits that an operation stands for, whatever its fuel.
module _ (last : ℕ → ℕ) (op : ℕ → ℕ → ℕ) where
  digits-zero : (fuel b : ℕ) → digits last op fuel 0 b ≡ last b
  digits-zero zero b = refl
  digits-zero (suc fuel) b = refl

  digits_agree :
      (bound n m a b : ℕ) → a ≤ bound → a ≤ n → a ≤ m → digits last op n a b ≡ digits last op m a b
  digits_agree bound n m zero b h p q = digits-zero n b ∙ sym (digits-zero m b)
  digits_agree zero n m (suc a) b h p q = absurd (omega arith)
  digits_agree (suc bound) zero m (suc a) b h p q = absurd (omega arith)
  digits_agree (suc bound) (suc n) zero (suc a) b h p q = absurd (omega arith)
  digits_agree (suc bound) (suc n) (suc m) (suc a) b h p q =
      ap (λ (t : ℕ). t * 2 + op (suc a % 2) (b % 2))
        (digits_agree bound n m (suc a / 2) (b / 2) (omega arith) (omega arith) (omega arith))

-- The lowest bit apart.
pub bit_and_low : (a b : ℕ) → bit_and a b ≡ bit_and (a / 2) (b / 2) * 2 + min (a % 2) (b % 2)
bit_and_low zero b = omega (arith, bit_and-bitwise 0 b, bit_and-bitwise 0 (b / 2))
bit_and_low (suc a) b = omega (
  arith,
  bit_and-bitwise (suc a) b,
  bit_and-bitwise (suc a / 2) (b / 2),
  digits_agree (λ _. 0) min a a (suc a / 2) (suc a / 2) (b / 2) (omega arith) (omega arith)
      (omega arith),
)

pub bit_or_low : (a b : ℕ) → bit_or a b ≡ bit_or (a / 2) (b / 2) * 2 + max (a % 2) (b % 2)
bit_or_low zero b = omega (arith, bit_or-bitwise 0 b, bit_or-bitwise 0 (b / 2))
bit_or_low (suc a) b = omega (
  arith,
  bit_or-bitwise (suc a) b,
  bit_or-bitwise (suc a / 2) (b / 2),
  digits_agree (λ x. x) max a a (suc a / 2) (suc a / 2) (b / 2) (omega arith) (omega arith)
      (omega arith),
)

times_pow : (q k : ℕ) → q * 2 ^ suc k ≡ 2 * (q * 2 ^ k)
times_pow q k = omega (arith, ap (λ (t : ℕ). q * t) (pow-suc 2 k))

-- A field of `k` bits apart.
pub bit_and_field :
    (k a b c d : ℕ)
    → b < 2 ^ k
    → d < 2 ^ k
    → bit_and (a * 2 ^ k + b) (c * 2 ^ k + d) ≡ bit_and a c * 2 ^ k + bit_and b d
bit_and_field zero a b c d hb hd = ground (arith, bit_and-bitwise 0 0)
bit_and_field (suc k) a b c d hb hd = ground (
  arith,
  bit_and_low (a * 2 ^ suc k + b) (c * 2 ^ suc k + d),
  bit_and_low b d,
  times_pow a k,
  times_pow c k,
  times_pow (bit_and a c) k,
  pow-suc 2 k,
  bit_and_field k a (b / 2) c (d / 2) (omega (arith, pow-suc 2 k)) (omega (arith, pow-suc 2 k)),
)

pub bit_or_field :
    (k a b c d : ℕ)
    → b < 2 ^ k
    → d < 2 ^ k
    → bit_or (a * 2 ^ k + b) (c * 2 ^ k + d) ≡ bit_or a c * 2 ^ k + bit_or b d
bit_or_field zero a b c d hb hd = ground (arith, bit_or-bitwise 0 0)
bit_or_field (suc k) a b c d hb hd = ground (
  arith,
  bit_or_low (a * 2 ^ suc k + b) (c * 2 ^ suc k + d),
  bit_or_low b d,
  times_pow a k,
  times_pow c k,
  times_pow (bit_or a c) k,
  pow-suc 2 k,
  bit_or_field k a (b / 2) c (d / 2) (omega (arith, pow-suc 2 k)) (omega (arith, pow-suc 2 k)),
)

bit_and_zero_below : (k a : ℕ) → a ≤ k → bit_and a 0 ≡ 0
bit_and_zero_below k zero h = refl
bit_and_zero_below zero (suc a) h = absurd (omega arith)
bit_and_zero_below (suc k) (suc a) h =
    omega (arith, bit_and_low (suc a) 0, bit_and_zero_below k (suc a / 2) (omega arith))

pub bit_and-zero : (a : ℕ) → bit_and a 0 ≡ 0
bit_and-zero a = bit_and_zero_below a a (omega arith)

bit_or_zero_below : (k a : ℕ) → a ≤ k → bit_or a 0 ≡ a
bit_or_zero_below k zero h = refl
bit_or_zero_below zero (suc a) h = absurd (omega arith)
bit_or_zero_below (suc k) (suc a) h =
    omega (arith, bit_or_low (suc a) 0, bit_or_zero_below k (suc a / 2) (omega arith))

pub bit_or-zero : (a : ℕ) → bit_or a 0 ≡ a
bit_or-zero a = bit_or_zero_below a a (omega arith)

pub zero-bit_or : (a : ℕ) → bit_or 0 a ≡ a
zero-bit_or a = bit_or-bitwise 0 a

-- The mask of `k` ones keeps the numbers of `k` bits.
pub bit_and_ones : (k a : ℕ) → a < 2 ^ k → bit_and a (2 ^ k - 1) ≡ a
bit_and_ones zero a h = omega (arith, bit_and-zero a)
bit_and_ones (suc k) a h = ground (
  arith,
  bit_and_low a (2 ^ suc k - 1),
  pow-suc 2 k,
  one-le-pow k 2,
  bit_and_ones k (a / 2) (omega (arith, pow-suc 2 k)),
)
