-- ===== src/Wire/VLength/Reading.antt =====
-- What `VLength::read` accepts: each encoding, and nothing else.
use native.Mathlib.Decide.{dec_lt}
use ssp21_cpp.Base.{
  ◌-◌, ℕ, zero, suc, ◌+◌, ◌*◌, ◌/◌, ◌%◌, ◌^◌, ◌≤◌, ◌<◌, ◌≡◌, ◌⊎◌, refl, ◌++◌, [], ◌∷◌, arith, Bytes,
  IsByte, All, bit_and,
}
use ssp21_cpp.Base.Bits.{top_bit, low_bits, or_byte}
use ssp21_cpp.Ser.{Ser4cpp}
use ssp21_cpp.Wire.{Parsed, ok, err, insufficient_bytes}
use ssp21_cpp.Wire.VLength.{num_values_bytes, read_loop, check_count, read_rest, read}
use ssp21_cpp.Wire.VLength.Format.{digits, counted, encode, IsU32, num_values_bytes_bounds}

module _ ⦃ser : Ser4cpp⦄ where
  -- One round of the loop.
  read_loop_step :
      (n ret b next : ℕ) (src : Bytes)
      → ret < 2 ^ 24
      → b < 256
      → next ≡ ret * 256 + b
      → read_loop (suc n) ret (b ∷ src) ≡ read_loop n next src
  unfolding read_loop
  read_loop_step n ret b next src h k e =
      let small : ret * 256 % 2 ^ 32 ≡ ret * 256 = omega arith in
      rw (ser.read_u8_lem (b ∷ src), read_loop) (rw (small, or_byte ret b k, e))

  read_loop-digits :
      (n v : ℕ) (rest : Bytes)
      → n ≤ 4
      → v < 256 ^ n
      → read_loop n 0 (digits n v ++ rest) ≡ ok (v, rest)
  read_loop-digits zero v rest k h = unfold read_loop in ground arith
  read_loop-digits (suc zero) v rest k h =
      rw (read_loop_step 0 0 (v / 1 % 256) v rest (omega arith) (omega arith) (omega arith))
        (unfold read_loop in refl)
  read_loop-digits (suc (suc zero)) v rest k h =
      rw
        (
          read_loop_step 1 0 (v / 256 % 256) (v / 256) (digits 1 v ++ rest) (omega arith)
              (omega arith) (omega arith),
          read_loop_step 0 (v / 256) (v / 1 % 256) v rest (omega arith) (omega arith) (omega arith),
        )
        (unfold read_loop in refl)
  read_loop-digits (suc (suc (suc zero))) v rest k h =
      rw
        (
          read_loop_step 2 0 (v / 256 ^ 2 % 256) (v / 256 ^ 2) (digits 2 v ++ rest) (omega arith)
              (omega arith) (omega arith),
          read_loop_step 1 (v / 256 ^ 2) (v / 256 % 256) (v / 256) (digits 1 v ++ rest)
              (omega arith) (omega arith) (omega arith),
          read_loop_step 0 (v / 256) (v / 1 % 256) v rest (omega arith) (omega arith) (omega arith),
        )
        (unfold read_loop in refl)
  read_loop-digits (suc (suc (suc (suc zero)))) v rest k h =
      rw
        (
          read_loop_step 3 0 (v / 256 ^ 3 % 256) (v / 256 ^ 3) (digits 3 v ++ rest) (omega arith)
              (omega arith) (omega arith),
          read_loop_step 2 (v / 256 ^ 3) (v / 256 ^ 2 % 256) (v / 256 ^ 2) (digits 2 v ++ rest)
              (omega arith) (omega arith) (omega arith),
          read_loop_step 1 (v / 256 ^ 2) (v / 256 % 256) (v / 256) (digits 1 v ++ rest)
              (omega arith) (omega arith) (omega arith),
          read_loop_step 0 (v / 256) (v / 1 % 256) v rest (omega arith) (omega arith) (omega arith),
        )
        (unfold read_loop in refl)
  read_loop-digits (suc (suc (suc (suc (suc n))))) v rest k h = absurd (omega arith)

  read_counted :
      (n v : ℕ) (rest : Bytes)
      → n ≤ 4
      → (v < 128) ⊎ (v < 256 ^ n)
      → num_values_bytes v ≡ n
      → read (counted n v ++ rest) ≡ ok (v, rest)
  unfolding read read_rest check_count
  read_counted zero v rest k h e =
      let small : v % 256 ≡ v = omega arith in
      rw (ser.read_u8_lem (counted 0 v ++ rest), read, small)
        (ground (arith, top_bit v (omega arith)))
  read_counted (suc zero) v rest k h e =
      rw (ser.read_u8_lem (counted 1 v ++ rest), read)
        (rw (read_loop-digits 1 v rest (omega arith) (omega arith), e))
  read_counted (suc (suc zero)) v rest k h e =
      rw (ser.read_u8_lem (counted 2 v ++ rest), read)
        (rw (read_loop-digits 2 v rest (omega arith) (omega arith), e))
  read_counted (suc (suc (suc zero))) v rest k h e =
      rw (ser.read_u8_lem (counted 3 v ++ rest), read)
        (rw (read_loop-digits 3 v rest (omega arith) (omega arith), e))
  read_counted (suc (suc (suc (suc zero)))) v rest k h e =
      rw (ser.read_u8_lem (counted 4 v ++ rest), read)
        (rw (read_loop-digits 4 v rest (omega arith) (omega arith), e))
  read_counted (suc (suc (suc (suc (suc n))))) v rest k h e = absurd (omega arith)

  read_loop_nil : (n ret : ℕ) → read_loop (suc n) ret [] ≡ err insufficient_bytes
  unfolding read_loop
  read_loop_nil n ret = rw (ser.read_u8_lem [], read_loop)

  read_loop_sound :
      (n ret v : ℕ) (src rest : Bytes)
      → ret * 256 ^ n < 2 ^ 32
      → n ≤ 4
      → All IsByte src
      → read_loop n ret src ≡ ok (v, rest)
      → (src ≡ digits n v ++ rest) × (v / 256 ^ n ≡ ret)
  read_loop_sound zero ret v src rest h k s e = unfold read_loop in ground arith
  read_loop_sound (suc n) ret v [] rest h k s e = cc (read_loop_nil n ret)
  read_loop_sound (suc zero) ret v (b ∷ src) rest h k s e = ground (
    arith,
    read_loop_step 0 ret b (ret * 256 + b) src,
    read_loop_sound 0 (ret * 256 + b) v src rest,
  )
  read_loop_sound (suc (suc zero)) ret v (b ∷ src) rest h k s e = ground (
    arith,
    read_loop_step 1 ret b (ret * 256 + b) src,
    read_loop_sound 1 (ret * 256 + b) v src rest,
  )
  read_loop_sound (suc (suc (suc zero))) ret v (b ∷ src) rest h k s e = ground (
    arith,
    read_loop_step 2 ret b (ret * 256 + b) src,
    read_loop_sound 2 (ret * 256 + b) v src rest,
  )
  read_loop_sound (suc (suc (suc (suc zero)))) ret v (b ∷ src) rest h k s e = ground (
    arith,
    read_loop_step 3 ret b (ret * 256 + b) src,
    read_loop_sound 3 (ret * 256 + b) v src rest,
  )
  read_loop_sound (suc (suc (suc (suc (suc n))))) ret v (b ∷ src) rest h k s e =
      absurd (omega arith)

  check_count-ok :
      (count : ℕ) (r : Parsed (ℕ × Bytes)) {v : ℕ} {rest : Bytes}
      → check_count count r ≡ ok (v, rest)
      → (r ≡ ok (v, rest)) × (num_values_bytes v ≡ count)
  unfolding check_count
  check_count-ok count (ok (ret, src)) e = ground arith
  check_count-ok count (err x) e = cc

  -- A first byte below the top bit is the value.
  first_byte :
      (b v : ℕ) (src rest : Bytes)
      → b < 128
      → read_rest b src ≡ ok (v, rest)
      → (v ≡ b) × (rest ≡ src)
  unfolding read_rest
  first_byte b v src rest h e = ground (arith, top_bit b (omega arith))

  -- Any other holds the count of bytes that follow.
  count_byte :
      (b n v : ℕ) (src rest : Bytes)
      → b ≡ 128 + n
      → b < 256
      → read_rest b src ≡ ok (v, rest)
      → (1 ≤ n) × (n ≤ 4) × (read_loop n 0 src ≡ ok (v, rest)) × (num_values_bytes v ≡ n)
  unfolding read_rest
  count_byte b n v src rest split hi e =
      let low : bit_and b 0x7F ≡ n = omega (arith, low_bits b hi) in
      ground (arith, low, top_bit b hi, check_count-ok n (read_loop n 0 src))

  counted_sound :
      (n v : ℕ) (src rest : Bytes)
      → 1 ≤ n
      → n ≤ 4
      → num_values_bytes v ≡ n
      → (src ≡ digits n v ++ rest) × (v / 256 ^ n ≡ 0)
      → IsU32 v × ((128 + n) ∷ src ≡ encode v ++ rest)
  unfolding encode
  counted_sound zero v src rest lo hi e f = absurd (omega arith)
  counted_sound (suc zero) v src rest lo hi e (f, z) = (omega arith, rw (e, f))
  counted_sound (suc (suc zero)) v src rest lo hi e (f, z) = (omega arith, rw (e, f))
  counted_sound (suc (suc (suc zero))) v src rest lo hi e (f, z) = (omega arith, rw (e, f))
  counted_sound (suc (suc (suc (suc zero)))) v src rest lo hi e (f, z) = (omega arith, rw (e, f))
  counted_sound (suc (suc (suc (suc (suc n))))) v src rest lo hi e f = absurd (omega arith)

  read_rest_sound :
      (b v : ℕ) (src rest : Bytes)
      → IsByte b
      → All IsByte src
      → read_rest b src ≡ ok (v, rest)
      → IsU32 v × (b ∷ src ≡ encode v ++ rest)
  read_rest_sound b v src rest h s e = elim (dec_lt b 128) [
    | yes low ↦
        let (ev, er) = first_byte b v src rest low e in
        let single : num_values_bytes v ≡ 0 = unfold num_values_bytes in ground arith in
        (omega arith, unfold encode in rw (single, er) (ground arith))
    | no high ↦
        let n = b - 128 in
        let split : b ≡ 128 + n = omega arith in
        let (lo, hi, el, ec) = count_byte b n v src rest split h e in
        let (fits, found) =
          counted_sound n v src rest lo hi ec
            (read_loop_sound n 0 v src rest (omega arith) hi s el) in
        (fits, rw split found)
  ]

  -- What is read is a uint32_t, and its encoding is what was read.
  pub read_sound :
      (s : Bytes) (v : ℕ) (rest : Bytes)
      → All IsByte s
      → read s ≡ ok (v, rest)
      → IsU32 v × (s ≡ encode v ++ rest)
  unfolding read
  read_sound [] v rest h e = cc (ser.read_u8_lem [])
  read_sound (b ∷ src) v rest (hb, hs) e =
      read_rest_sound b v src rest hb hs (rw (ser.read_u8_lem (b ∷ src), read) at e)

  -- A uint32_t is read back from its encoding, whatever follows.
  pub read-encode : (v : ℕ) (rest : Bytes) → IsU32 v → read (encode v ++ rest) ≡ ok (v, rest)
  unfolding encode
  read-encode v rest h =
      let (few, fits) = num_values_bytes_bounds v h in read_counted _ v rest few fits refl
