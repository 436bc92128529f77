-- ===== src/Common/Bits.antt =====
-- `|` of a number and a shifted number whose bits do not meet is their sum.
use Prim.Native.Nat.{
  ℕ, zero, suc, ◌+◌, ◌*◌, ◌/◌, ◌%◌, ◌^◌, ◌≤◌, ◌<◌, max, bit_or, digits, bit_or-bitwise,
}
use mathlib.Core.Path.{◌≡◌, refl}
use native.Mathlib.Omega.{arith}
use native.Mathlib.Decide.{dec_le}
use native.Mathlib.Nat.{pow-suc, pow-le-pow_right}

abbrev or_digits : ℕ → ℕ → ℕ → ℕ
or_digits n a b = digits (λ b. b) max n a b

or_digits_fuel : (n m a b : ℕ) → a ≤ n → a ≤ m → or_digits n a b ≡ or_digits m a b
or_digits_fuel zero zero a b p q = refl
or_digits_fuel zero (suc m) zero b p q = refl
or_digits_fuel zero (suc m) (suc a) b p q = absurd (omega arith)
or_digits_fuel (suc n) zero zero b p q = refl
or_digits_fuel (suc n) zero (suc a) b p q = absurd (omega arith)
or_digits_fuel (suc n) (suc m) zero b p q = refl
or_digits_fuel (suc n) (suc m) (suc a) b p q =
    omega (arith, or_digits_fuel n m (suc a / 2) (b / 2) (omega arith) (omega arith))

zero-bit_or : (b : ℕ) → bit_or 0 b ≡ b
zero-bit_or b = bit_or-bitwise 0 b

bit_or_step : (a b : ℕ) → bit_or a b ≡ bit_or (a / 2) (b / 2) * 2 + max (a % 2) (b % 2)
bit_or_step zero b = omega (arith, zero-bit_or b, zero-bit_or (b / 2))
bit_or_step (suc a) b = omega (
  arith,
  bit_or-bitwise (suc a) b,
  bit_or-bitwise (suc a / 2) (b / 2),
  or_digits_fuel a (suc a / 2) (suc a / 2) (b / 2) (omega arith) (omega arith),
)

bit_or_double : (a p : ℕ) → bit_or a (p * 2) ≡ bit_or (a / 2) p * 2 + a % 2
bit_or_double a p =
    let half : p * 2 / 2 ≡ p = omega arith in rw (bit_or_step a (p * 2), half) (omega arith)

pow_split : (b k : ℕ) → b * 2 ^ suc k ≡ b * 2 ^ k * 2
pow_split b k = rw pow-suc (omega arith)

-- The bits of `a` lie below `k` and those of `b * 2 ^ k` do not.
pub bit_or_disjoint : (k a b : ℕ) → a < 2 ^ k → bit_or a (b * 2 ^ k) ≡ a + b * 2 ^ k
bit_or_disjoint zero zero b h = rw zero-bit_or (omega arith)
bit_or_disjoint zero (suc a) b h = absurd (omega arith)
bit_or_disjoint (suc k) a b h = rw (pow_split b k) (
    omega (
      arith,
      bit_or_double a (b * 2 ^ k),
      pow-suc 2 k,
      bit_or_disjoint k (a / 2) b (omega (arith, pow-suc 2 k)),
    ))

bit_or_comm_fuel : (n a b : ℕ) → a + b ≤ n → bit_or a b ≡ bit_or b a
bit_or_comm_fuel n zero zero h = refl
bit_or_comm_fuel zero zero (suc b) h = absurd (omega arith)
bit_or_comm_fuel zero (suc a) b h = absurd (omega arith)
bit_or_comm_fuel (suc n) (suc a) b h = omega (
  arith,
  bit_or_step (suc a) b,
  bit_or_step b (suc a),
  bit_or_comm_fuel n (suc a / 2) (b / 2) (omega arith),
)
bit_or_comm_fuel (suc n) zero (suc b) h = omega (
  arith,
  bit_or_step zero (suc b),
  bit_or_step (suc b) zero,
  bit_or_comm_fuel n zero (suc b / 2) (omega arith),
)

pub bit_or_comm : (a b : ℕ) → bit_or a b ≡ bit_or b a
bit_or_comm a b = bit_or_comm_fuel (a + b) a b (omega arith)

-- The same for a mask that sets the bit 7 of a group of seven bits.
pub bit_or-top : (a : ℕ) → a < 128 → bit_or a 0x80 ≡ a + 128
bit_or-top a h = bit_or_disjoint 7 a 1 h

-- A power of two below 2 ^ n has its exponent below n.
pub exponent_lt : (m n : ℕ) → 2 ^ m < 2 ^ n → m < n
exponent_lt m n h = elim (dec_le n m) [
  | yes p ↦ absurd (omega (arith, pow-le-pow_right {n = 2} (omega arith) p))
  | no p ↦ omega arith
]
