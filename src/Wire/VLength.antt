-- ===== src/Wire/VLength.antt =====
-- cpp/libs/ssp21/src/crypto/VLength.cpp: the variable-length encoding of a uint32_t.
pub mod Format
pub mod Writing
pub mod Reading
use ssp21_cpp.Base.{
  ℕ, zero, suc, ◌+◌, ◌*◌, ◌/◌, ◌%◌, ◌^◌, Bool, ◌||◌, Bytes, Option, none, some, bit_and, bit_or,
  ltb, leb, ◌==◌, not, if◌then◌else◌,
}
use ssp21_cpp.Ser.{Ser4cpp, WSeq}
use ssp21_cpp.Wire.{
  Parsed, ok, err, FormatError, insufficient_space, insufficient_bytes, bad_vlength,
}

abbrev max_one_byte_value : ℕ
max_one_byte_value = 127

-- 2^24 - 1
abbrev max_four_byte_value : ℕ
max_four_byte_value = 16777215

abbrev top_bit_mask : ℕ
top_bit_mask = 0x80

abbrev bottom_bits_mask : ℕ
bottom_bits_mask = 0x7F

-- 0 stands for a value that is encoded in the first byte.
unfoldable pub num_values_bytes : ℕ → ℕ
num_values_bytes value =
    if leb value max_one_byte_value
    then 0
    else if leb value 255
    then 1
    else if leb value 65535
    then 2
    else if leb value max_four_byte_value
    then 3
    else 4

pub size : ℕ → ℕ
unfolding num_values_bytes
size value = num_values_bytes value + 1

-- The `?:` on a write: its error code, and the view as the write left it.
abbrev pub or_no_space : WSeq → Option WSeq → FormatError × WSeq
or_no_space dest none = (insufficient_space, dest)
or_no_space dest (some dest') = (FormatError.ok, dest')

abbrev pub if_written : WSeq → Option WSeq → (WSeq → FormatError × WSeq) → FormatError × WSeq
if_written dest none k = (insufficient_space, dest)
if_written dest (some dest') k = k dest'

-- A call of `read_from` that returns `insufficient_bytes` on `false`.
abbrev pub or_no_bytes {ℓ} : {A : Type ℓ} → Option A → Parsed A
or_no_bytes none = err insufficient_bytes
or_no_bytes (some a) = ok a

-- What the loop leaves, held against the count of bytes that it has read.
check_count : ℕ → Parsed (ℕ × Bytes) → Parsed (ℕ × Bytes)
check_count count (ok (ret, src)) =
    if num_values_bytes ret == count then ok (ret, src) else err bad_vlength
check_count count (err e) = err e

module _ ⦃ser : Ser4cpp⦄ where
  -- The `switch` on the count of value bytes. Each argument is cast as the source casts it.
  write_value : ℕ → ℕ → WSeq → FormatError × WSeq
  write_value num value dest =
      if num == 1
      then or_no_space dest (ser.put (value % 256) dest)
      else if num == 2
      then or_no_space dest (ser.write_u16 (value % 2 ^ 16) dest)
      else if num == 3
      then (if_written dest (ser.put (value / 2 ^ 16 % 256) dest)
          (λ dest'. or_no_space dest' (ser.write_u16 (value % 2 ^ 16) dest')))
      else or_no_space dest (ser.write_u32 value dest)

  -- `write`, at the count of value bytes that it has computed.
  write_counted : ℕ → ℕ → WSeq → FormatError × WSeq
  unfolding write_value
  write_counted num value dest =
      if num == 0
      then or_no_space dest (ser.put (value % 256) dest)
      else if_written dest (ser.put (bit_or top_bit_mask num) dest)
          (λ dest'. write_value num value dest')

  pub write : ℕ → WSeq → FormatError × WSeq
  unfolding write_counted
  write value dest = write_counted (num_values_bytes value) value dest

  -- `for (i = 0; i < count; ++i)`: `ret` is a uint32_t.
  read_loop : ℕ → ℕ → Bytes → Parsed (ℕ × Bytes)
  read_loop zero ret src = ok (ret, src)
  read_loop (suc count) ret src = elim (ser.read_u8 src) [
    | none ↦ err insufficient_bytes
    | some (byte, src') ↦ read_loop count (bit_or (ret * 256 % 2 ^ 32) byte) src'
  ]

  read_rest : ℕ → Bytes → Parsed (ℕ × Bytes)
  unfolding read_loop check_count
  read_rest top_byte src =
      let count = bit_and top_byte bottom_bits_mask in
      if bit_and top_byte top_bit_mask == 0
      then ok (top_byte, src)
      else if ltb count 1 || ltb 4 count
      then err bad_vlength
      else check_count count (read_loop count 0 src)

  pub read : Bytes → Parsed (ℕ × Bytes)
  unfolding read_rest
  read src = elim (ser.read_u8 src) [
    | none ↦ err insufficient_bytes
    | some (top_byte, src') ↦ read_rest top_byte src'
  ]
