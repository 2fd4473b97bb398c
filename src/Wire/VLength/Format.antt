-- ===== src/Wire/VLength/Format.antt =====
-- The wire format of a length, by the table of VLength.h.
use ssp21_cpp.Base.{
  ℕ, zero, suc, ◌+◌, ◌/◌, ◌%◌, ◌^◌, ◌≤◌, ◌<◌, ◌≡◌, ◌⊎◌, refl, ap, [], ◌∷◌, arith, Bytes, IsByte,
  All, length,
}
use ssp21_cpp.Wire.VLength.{num_values_bytes, size}

-- The `n` lowest base-256 digits of `v`, highest first.
abbrev pub digits : ℕ → ℕ → Bytes
digits zero v = []
digits (suc n) v = (v / 256 ^ n % 256) ∷ digits n v

-- The wire format at a count of value bytes: the value itself, or the count and the digits.
abbrev pub counted : ℕ → ℕ → Bytes
counted zero v = (v % 256) ∷ []
counted (suc n) v = (128 + suc n) ∷ digits (suc n) v

unfoldable pub encode : ℕ → Bytes
encode v = counted (num_values_bytes v) v

abbrev pub IsU32 : ℕ → Type 0
IsU32 v = v < 2 ^ 32

-- The fewest bytes that hold the value.
pub num_values_bytes_bounds :
    (v : ℕ) → IsU32 v → (num_values_bytes v ≤ 4) × ((v < 128) ⊎ (v < 256 ^ num_values_bytes v))
unfolding num_values_bytes
num_values_bytes_bounds v h = ground arith

digits-IsByte : (n v : ℕ) → All IsByte (digits n v)
digits-IsByte zero v = tt
digits-IsByte (suc n) v = (omega arith, digits-IsByte n v)

counted-IsByte : (n v : ℕ) → n ≤ 4 → All IsByte (counted n v)
counted-IsByte zero v h = omega arith
counted-IsByte (suc n) v h = (omega arith, digits-IsByte (suc n) v)

pub num_values_bytes-le : (v : ℕ) → num_values_bytes v ≤ 4
unfolding num_values_bytes
num_values_bytes-le v = ground arith

length-digits : (n v : ℕ) → length (digits n v) ≡ n
length-digits zero v = refl
length-digits (suc n) v = ap suc (length-digits n v)

pub length-counted : (n v : ℕ) → length (counted n v) ≡ n + 1
length-counted zero v = refl
length-counted (suc n) v = omega (arith, length-digits n v)

pub length-encode : (v : ℕ) → length (encode v) ≡ size v
unfolding encode size
length-encode v = length-counted (num_values_bytes v) v

pub encode-IsByte : (v : ℕ) → All IsByte (encode v)
unfolding encode
encode-IsByte v = counted-IsByte (num_values_bytes v) v (num_values_bytes-le v)
