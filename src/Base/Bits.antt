-- ===== src/Base/Bits.antt =====
-- The bit operations of C++ at variables: a mask on one byte by a table of its 256 values, and the
-- join of a shifted word with the digit that fills its low bits.
use Prim.Native.Nat.{
  ℕ, zero, suc, ◌+◌, ◌*◌, ◌/◌, ◌%◌, ◌≤◌, ◌<◌, max, bit_and, bit_or, bit_or-bitwise, digits,
}
use mathlib.Core.Path.{◌≡◌, refl}
use mathlib.Core.Bool.{Bool, true, ◌&&◌}
use native.Mathlib.Omega.{arith}
use ssp21_cpp.Base.Tests.{◌==◌, ==_iff}

unfoldable pub all_below : ℕ → (ℕ → Bool) → Bool
all_below zero p = true
all_below (suc n) p = p n && all_below n p

pub all_below-at : (n : ℕ) (p : ℕ → Bool) (x : ℕ) → all_below n p ≡ true → x < n → p x ≡ true
unfolding all_below
all_below-at zero p x h lt = absurd (omega arith)
all_below-at (suc n) p x h lt = ground (arith, all_below-at n p x)

top_bit_table : all_below 256 (λ b. bit_and b 0x80 == b / 128 * 128) ≡ true
unfolding all_below
top_bit_table = refl

pub top_bit : (b : ℕ) → b < 256 → bit_and b 0x80 ≡ b / 128 * 128
top_bit b h = (==_iff _ _).0 (all_below-at 256 _ b top_bit_table h)

low_bits_table : all_below 256 (λ b. bit_and b 0x7F == b % 128) ≡ true
unfolding all_below
low_bits_table = refl

pub low_bits : (b : ℕ) → b < 256 → bit_and b 0x7F ≡ b % 128
low_bits b h = (==_iff _ _).0 (all_below-at 256 _ b low_bits_table h)

-- `|` by digits, with `n` digits of fuel.
abbrev joined : ℕ → ℕ → ℕ → ℕ
joined n a b = digits (λ d. d) max n a b

-- Fuel beyond the left operand changes nothing.
joined_fuel : (n a b m : ℕ) → a ≤ n → n ≤ m → joined n a b ≡ joined m a b
joined_fuel zero zero b zero p q = refl
joined_fuel zero zero b (suc m) p q = refl
joined_fuel zero (suc a) b m p q = absurd (omega arith)
joined_fuel (suc n) zero b zero p q = absurd (omega arith)
joined_fuel (suc n) zero b (suc m) p q = refl
joined_fuel (suc n) (suc a) b zero p q = absurd (omega arith)
joined_fuel (suc n) (suc a) b (suc m) p q =
    omega (arith, joined_fuel n (suc a / 2) (b / 2) m (omega arith) (omega arith))

-- The lowest digit of a join.
or_digit : (a b : ℕ) → bit_or a b ≡ bit_or (a / 2) (b / 2) * 2 + max (a % 2) (b % 2)
or_digit zero b = omega (arith, bit_or-bitwise 0 b, bit_or-bitwise 0 (b / 2))
or_digit (suc a) b = omega (
  arith,
  bit_or-bitwise (suc a) b,
  bit_or-bitwise (suc a / 2) (b / 2),
  joined_fuel (suc a / 2) (suc a / 2) (b / 2) a (omega arith) (omega arith),
)

or_zero_below : (n a : ℕ) → a ≤ n → bit_or a 0 ≡ a
or_zero_below n zero h = refl
or_zero_below zero (suc a) h = absurd (omega arith)
or_zero_below (suc n) (suc a) h =
    omega (arith, or_digit (suc a) 0, or_zero_below n (suc a / 2) (omega arith))

or_even : (p q r : ℕ) → p ≡ q * 2 → bit_or p r ≡ bit_or q (r / 2) * 2 + r % 2
or_even p q r e = let half : p / 2 ≡ q = omega arith in rw (or_digit p r, half) (omega arith)

-- Four bits of a join whose left operand has none of them.
or_nibble : (p q r : ℕ) → p ≡ q * 16 → bit_or p r ≡ bit_or q (r / 2 / 2 / 2 / 2) * 16 + r % 16
or_nibble p q r e = omega (
  arith,
  or_even p (q * 8) r (omega arith),
  or_even (q * 8) (q * 4) (r / 2) (omega arith),
  or_even (q * 4) (q * 2) (r / 2 / 2) (omega arith),
  or_even (q * 2) q (r / 2 / 2 / 2) (omega arith),
)

-- `(q << 8) | r` is a sum when `r` is a byte.
pub or_byte : (q r : ℕ) → r < 256 → bit_or (q * 256) r ≡ q * 256 + r
or_byte q r h =
    let high : r / 2 / 2 / 2 / 2 / 2 / 2 / 2 / 2 ≡ 0 = omega arith in
    let low : bit_or q (r / 2 / 2 / 2 / 2 / 2 / 2 / 2 / 2) ≡ q =
      rw high (or_zero_below q q (omega arith)) in
    omega (
      arith,
      low,
      or_nibble (q * 256) (q * 16) r (omega arith),
      or_nibble (q * 16) q (r / 2 / 2 / 2 / 2) (omega arith),
    )
