-- ===== src/Wire/Fields.antt =====
-- The field templates of cpp/libs/ssp21/include/ssp21/crypto: IntegerField.h, EnumField.h,
-- SeqByteField.h and SeqStructField.h.
pub mod Integers
pub mod ByteSeq
pub mod Items
use ssp21_cpp.Base.{
  ℕ, zero, suc, ◌+◌, Bool, true, false, Bytes, List, [], ◌∷◌, ◌++◌, Option, none, some, length,
  take, drop, ltb, ◌==◌, if◌then◌else◌,
}
use ssp21_cpp.Ser.{Ser4cpp, WSeq}
use ssp21_cpp.Wire.{
  Field, Parsed, ok, err, insufficient_bytes, undefined_enum, impl_capacity_limit,
  insufficient_space, FormatError, ◌>>=◌, after_write,
}
use ssp21_cpp.Wire.VLength
use ssp21_cpp.Wire.VLength.{or_no_bytes, or_no_space}

-- `IntegerField<IntegerType>`, over the codec's size and its two functions.
unfoldable pub integer_field : ℕ → (Bytes → Option (ℕ × Bytes)) → (ℕ → WSeq → Option WSeq) → Field ℕ
integer_field size read_from write_to = record {
  read = λ input. or_no_bytes (read_from input);
  write = λ value output. or_no_space output (write_to value output);
  size = λ value. size;
}

-- What `EnumField<Spec>` takes from its parameter.
pub record Spec (E : Type 0) : Type 0 where
  pub from_type : ℕ → E
  pub to_type : E → ℕ
  pub is_undefined : E → Bool

-- `EnumField::read`, behind the byte that it has read.
abbrev pub defined_or_error : {E : Type 0} → Spec E → ℕ × Bytes → Parsed (E × Bytes)
defined_or_error spec (raw_value, input) =
    if spec.is_undefined (spec.from_type raw_value)
    then err undefined_enum
    else ok (spec.from_type raw_value, input)

module _ ⦃ser : Ser4cpp⦄ where
  pub u8_field : Field ℕ
  unfolding integer_field
  u8_field = integer_field 1 ser.read_u8 ser.write_u8

  pub u16_field : Field ℕ
  unfolding integer_field
  u16_field = integer_field 2 ser.read_u16 ser.write_u16

  unfoldable pub u32_field : Field ℕ
  unfolding integer_field
  u32_field = integer_field 4 ser.read_u32 ser.write_u32

  unfoldable pub u64_field : Field ℕ
  unfolding integer_field
  u64_field = integer_field 8 ser.read_u64 ser.write_u64

  pub enum_field : {E : Type 0} → Spec E → Field E
  enum_field spec = record {
    read = λ input. or_no_bytes (ser.read_u8 input) >>= defined_or_error spec;
    write = λ value output. or_no_space output (ser.write_u8 (spec.to_type value) output);
    size = λ value. 1;
  }

  -- The second half of `SeqByteField::write`, behind the length.
  pub copy_bytes : Bytes → WSeq → FormatError × WSeq
  copy_bytes value dest =
      if ltb dest.space (length value)
      then (insufficient_space, dest)
      else (FormatError.ok, ser.copy_from value dest)

  pub seq_byte_field : Field Bytes
  unfolding copy_bytes
  seq_byte_field = record {
    read = λ input. VLength.read input >>= λ r.
        if ltb (length r.1) r.0 then err insufficient_bytes else ok (take r.0 r.1, drop r.0 r.1);
    write = λ value dest. after_write (VLength.write (length value) dest) (copy_bytes value);
    size = λ value. VLength.size (length value) + length value;
  }

  module _ {T : Type 0} (item : Field T) (max_count : ℕ) where
    -- `while (count > 0)`: the item is read before `push` looks for room.
    pub read_items : ℕ → List T → Bytes → Parsed (List T × Bytes)
    read_items zero items input = ok (items, input)
    read_items (suc count) items input = elim (item.read input) [
      | err e ↦ err e
      | ok (t, input') ↦
          let more = read_items count (items ++ (t ∷ [])) input' in
          if length items == max_count then err impl_capacity_limit else more
    ]

    pub write_items : List T → WSeq → FormatError × WSeq
    write_items [] output = (FormatError.ok, output)
    write_items (t ∷ items) output = after_write (item.write t output) (write_items items)

    pub sum_sizes : List T → ℕ
    sum_sizes [] = 0
    sum_sizes (t ∷ items) = item.size t + sum_sizes items

    pub seq_struct_field : Field (List T)
    unfolding read_items write_items sum_sizes
    seq_struct_field = record {
      read = λ input. VLength.read input >>= λ r. read_items r.0 [] r.1;
      write = λ items output. after_write (VLength.write (length items) output) (write_items items);
      size = λ items. VLength.size (length items) + sum_sizes items;
    }
