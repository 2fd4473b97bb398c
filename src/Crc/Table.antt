-- ===== src/Crc/Table.antt =====
-- The table is the one of the polynomial 0xf4acfb13.
use ssp21_cpp.Base.{
  ℕ, zero, suc, ◌*◌, ◌%◌, ◌^◌, ◌<◌, ◌≡◌, refl, true, bit_xor, get_or, ltb, ◌==◌, ==_iff,
  if◌then◌else◌,
}
use ssp21_cpp.Base.Bits.{all_below, all_below-at}
use ssp21_cpp.Crc.{table}

-- One bit of a long division by the polynomial, highest bit first.
pub divide_bit : ℕ → ℕ
divide_bit r = if ltb r (2 ^ 31) then r * 2 else bit_xor (r * 2 % 2 ^ 32) 0xf4acfb13

pub divide_bits : ℕ → ℕ → ℕ
unfolding divide_bit
divide_bits zero r = r
divide_bits (suc n) r = divide_bits n (divide_bit r)

table_checked : all_below 256 (λ i. get_or table i 0 == divide_bits 8 (i * 2 ^ 24)) ≡ true
unfolding all_below table divide_bits
table_checked = refl

-- For each byte, the table holds the remainder of that byte after eight steps of bitwise division
-- by the polynomial.
pub table-divide_bits : (i : ℕ) → i < 256 → get_or table i 0 ≡ divide_bits 8 (i * 2 ^ 24)
table-divide_bits i h = (==_iff _ _).0 (all_below-at 256 _ i table_checked h)
