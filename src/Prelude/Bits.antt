-- ===== src/Prelude/Bits.antt =====
-- `&` with a mask of low bits and `|` of disjoint fields, as arithmetic.
use Prim.Native.Nat.{ℕ, zero, suc, ◌+◌, ◌*◌, ◌/◌, ◌%◌, ◌^◌, ◌≤◌, ◌<◌, min, max}
use Prim.Native.Nat.{bit_and, bit_or, bitwise, digits, bit_and-bitwise, bit_or-bitwise}
use mathlib.Core.Path.{◌≡◌, refl, ap}
use native.Mathlib.Nat.{pow-suc, div-add-mod', mod-lt}
use native.Mathlib.Omega.{arith}

-- A bound on the fuel of `digits` beyond the first operand does not matter.
module _ (z : ℕ → ℕ) (f : ℕ → ℕ → ℕ) where
  digits_enough : (k l a b : ℕ) → a ≤ k → a ≤ l → digits z f k a b ≡ digits z f l a b
  digits_enough zero zero a b p q = refl
  digits_enough zero (suc l) zero b p q = refl
  digits_enough zero (suc l) (suc a) b p q = absurd (omega arith)
  digits_enough (suc k) zero zero b p q = refl
  digits_enough (suc k) zero (suc a) b p q = absurd (omega arith)
  digits_enough (suc k) (suc l) zero b p q = refl
  digits_enough (suc k) (suc l) (suc a) b p q =
      ap (λ t. t * 2 + f (suc a % 2) (b % 2))
        (digits_enough k l (suc a / 2) (b / 2) (omega arith) (omega arith))

  lowest_digit :
      (a b : ℕ)
      → bitwise z f (suc a) b ≡ bitwise z f (suc a / 2) (b / 2) * 2 + f (suc a % 2) (b % 2)
  lowest_digit a b =
      ap (λ t. t * 2 + f (suc a % 2) (b % 2))
        (digits_enough a (suc a / 2) (suc a / 2) (b / 2) (omega arith) (omega arith))

pub bit_and-halves : (a b : ℕ) → bit_and a b ≡ bit_and (a / 2) (b / 2) * 2 + min (a % 2) (b % 2)
bit_and-halves zero b = simp bit_and-bitwise (omega arith)
bit_and-halves (suc a) b = simp bit_and-bitwise (lowest_digit (λ y. 0) min a b)

pub bit_or-halves : (a b : ℕ) → bit_or a b ≡ bit_or (a / 2) (b / 2) * 2 + max (a % 2) (b % 2)
bit_or-halves zero b = simp bit_or-bitwise (omega arith)
bit_or-halves (suc a) b = simp bit_or-bitwise (lowest_digit (λ y. y) max a b)

bit_and-zero_below : (n a : ℕ) → a ≤ n → bit_and a 0 ≡ 0
bit_and-zero_below n zero h = simp bit_and-bitwise
bit_and-zero_below zero (suc a) h = absurd (omega arith)
bit_and-zero_below (suc n) (suc a) h =
    omega (arith, bit_and-halves (suc a) 0, bit_and-zero_below n (suc a / 2) (omega arith))

doubled_pow : (k g : ℕ) → g * 2 ^ suc k ≡ 2 * (g * 2 ^ k)
doubled_pow k g = omega (arith, ap (λ (t : ℕ). g * t) (pow-suc 2 k))

-- The exponent counts the bits of the mask `m`, so the induction is on it.
bit_and-mask_fields : (k q r m : ℕ) → r < 2 ^ k → m + 1 ≡ 2 ^ k → bit_and (q * 2 ^ k + r) m ≡ r
bit_and-mask_fields zero q r m h e =
    let z : m ≡ 0 = omega arith in
    rw z (omega (arith, bit_and-zero_below (q * 2 ^ 0 + r) (q * 2 ^ 0 + r) (omega arith)))
bit_and-mask_fields (suc k) q r m h e = ground (
  arith,
  pow-suc 2 k,
  doubled_pow k q,
  bit_and-halves (q * 2 ^ suc k + r) m,
  bit_and-mask_fields k q (r / 2) (m / 2) (omega (arith, pow-suc 2 k)) (omega (arith, pow-suc 2 k)),
)

-- A mask of `k` low bits is the remainder by `2 ^ k`.
pub bit_and-low_mask : (k a m : ℕ) → m + 1 ≡ 2 ^ k → bit_and a m ≡ a % 2 ^ k
bit_and-low_mask k a m e = ground (
  arith,
  div-add-mod' a (2 ^ k),
  mod-lt a {m = 2 ^ k} (omega arith),
  bit_and-mask_fields k (a / 2 ^ k) (a % 2 ^ k) m,
)

-- Fields that do not overlap are added.
pub bit_or-shifted : (k a g : ℕ) → a < 2 ^ k → bit_or a (g * 2 ^ k) ≡ a + g * 2 ^ k
bit_or-shifted zero zero g h = simp bit_or-bitwise (omega arith)
bit_or-shifted zero (suc a) g h = absurd (omega arith)
bit_or-shifted (suc k) a g h = ground (
  arith,
  pow-suc 2 k,
  doubled_pow k g,
  bit_or-halves a (g * 2 ^ suc k),
  bit_or-shifted k (a / 2) g (omega (arith, pow-suc 2 k)),
)

bit_or-zero_below : (n a : ℕ) → a ≤ n → bit_or a 0 ≡ a
bit_or-zero_below n zero h = simp bit_or-bitwise
bit_or-zero_below zero (suc a) h = absurd (omega arith)
bit_or-zero_below (suc n) (suc a) h =
    omega (arith, bit_or-halves (suc a) 0, bit_or-zero_below n (suc a / 2) (omega arith))

-- The same with the high field first.
pub bit_or-fields : (k a g : ℕ) → a < 2 ^ k → bit_or (g * 2 ^ k) a ≡ a + g * 2 ^ k
bit_or-fields zero zero g h = omega (arith, bit_or-zero_below (g * 2 ^ 0) (g * 2 ^ 0) (omega arith))
bit_or-fields zero (suc a) g h = absurd (omega arith)
bit_or-fields (suc k) a g h = ground (
  arith,
  pow-suc 2 k,
  doubled_pow k g,
  bit_or-halves (g * 2 ^ suc k) a,
  bit_or-fields k (a / 2) g (omega (arith, pow-suc 2 k)),
)

-- One bit of a number.
bit_and-pow_fields : (k q r : ℕ) → r < 2 ^ k → bit_and (q * 2 ^ k + r) (2 ^ k) ≡ q % 2 * 2 ^ k
bit_and-pow_fields zero q zero h = ground (
  arith,
  bit_and-halves (q * 2 ^ 0 + 0) (2 ^ 0),
  bit_and-zero_below ((q * 2 ^ 0 + 0) / 2) ((q * 2 ^ 0 + 0) / 2) (omega arith),
)
bit_and-pow_fields zero q (suc r) h = absurd (omega arith)
bit_and-pow_fields (suc k) q r h = ground (
  arith,
  pow-suc 2 k,
  doubled_pow k q,
  doubled_pow k (q % 2),
  bit_and-halves (q * 2 ^ suc k + r) (2 ^ suc k),
  bit_and-pow_fields k q (r / 2) (omega (arith, pow-suc 2 k)),
)

-- The tests and marks that the codecs make on the top bit of a byte.
pub top_bit : (b : ℕ) → b < 2 ^ 8 → bit_and b 0x80 ≡ b / 128 * 128
top_bit b h = ground (arith, bit_and-pow_fields 7 (b / 128) (b % 128))

pub low_bits : (b : ℕ) → bit_and b 0x7f ≡ b % 128
low_bits b = bit_and-low_mask 7 b 0x7f refl

pub mark_top_bit : (g : ℕ) → g < 128 → bit_or 0x80 g ≡ g + 128
mark_top_bit g h = bit_or-fields 7 g 1 h
