-- ===== src/Wire/Messages.antt =====
-- `read_message` and `write_message` of cpp/libs/ssp21/src/crypto/MessageParser.h and
-- MessageFormatter.h, which frame a message's fields by its function byte, and `read_all`, which
-- the generated structs share.
pub mod Bodies
pub mod Format
pub mod Framing
pub mod RoundTrip
use ssp21_cpp.Base.{
  ℕ, ◌+◌, ◌-◌, Bytes, List, [], ◌∷◌, ◌++◌, length, take, drop, ◌==◌, if◌then◌else◌, Bool,
}
use ssp21_cpp.Ser.{Ser4cpp, WSeq}
use ssp21_cpp.Wire.{
  Field, Parsed, ok, err, ◌>>=◌, unexpected_function, too_many_bytes, FormatError,
  insufficient_space, after_write,
}
use ssp21_cpp.Wire.Fields.{enum_field}
use ssp21_cpp.Wire.Enums.Handshake.{Function, function_spec}

-- The end of `read_message` and of `read_all`: all of the input must have been read.
pub all_read : {A : Type 0} → A × Bytes → Parsed A
all_read (value, []) = ok value
all_read (value, b ∷ rest) = err too_many_bytes

-- `read_all` of a struct.
pub read_all : {A : Type 0} → Field A → Bytes → Parsed A
unfolding all_read
read_all fields input = fields.read input >>= all_read

-- C++ compares enumerators by their values.
abbrev pub same_function : Function → Function → Bool
same_function a b = function_spec.to_type a == function_spec.to_type b

-- What `write_message` returns: its error code and the bytes that it has written.
pub record FormatResult : Type 0 where
  pub err : FormatError
  pub written : Bytes

-- `start.readonly().take(start.length() - dest.length())`, once all has been written.
abbrev pub finish_message : WSeq → FormatError × WSeq → FormatResult × WSeq
finish_message start (FormatError.ok, dest) = (
  record {
    err = FormatError.ok;
    written = take (start.space - dest.space) (drop (length start.written) dest.written);
  },
  dest,
)
finish_message start (insufficient_space, dest) =
    (record { err = insufficient_space; written = [] }, dest)

module _ ⦃ser : Ser4cpp⦄ {A : Type 0} (expected : Function) (fields : Field A) where
  read_body : Function × Bytes → Parsed A
  unfolding all_read
  read_body (function, input) =
      if same_function function expected
      then fields.read input >>= all_read
      else err unexpected_function

  pub read_message : Bytes → Parsed A
  unfolding read_body
  read_message input = (enum_field function_spec).read input >>= read_body

  pub write_message : A → WSeq → FormatResult × WSeq
  write_message value dest =
      finish_message dest
        (after_write ((enum_field function_spec).write expected dest) (fields.write value))

  pub message_size : A → ℕ
  message_size value = 1 + fields.size value
