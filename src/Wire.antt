-- ===== src/Wire.antt =====
-- How messages are read and written: the error codes of crypto/gen/ParseError.h and
-- crypto/gen/FormatError.h, and the fields that cpp/libs/ssp21/src/crypto/MessageParser.h and
-- MessageFormatter.h chain. Wire/Codec has the laws of a field.
pub mod Codec
pub mod VLength
pub mod Fields
pub mod Enums
pub mod Structs
pub mod Messages
mod Tests
use ssp21_cpp.Base.{ℕ, ◌+◌, Bytes}
use ssp21_cpp.Ser.{WSeq}

-- `ParseError::ok` is the constructor `ok` of `Parsed`.
pub data ParseError : Type 0 where
  insufficient_bytes undefined_enum unexpected_function too_many_bytes : ParseError
  impl_capacity_limit reserved_bit bad_vlength : ParseError

pub data FormatError : Type 0 where
  ok insufficient_space : FormatError

-- What a `read` leaves: the value with the input after it, or the error that it returns.
pub data Parsed {ℓ} (A : Type ℓ) : Type ℓ where
  ok : A → Parsed A
  err : ParseError → Parsed A

infixl 5 ◌>>=◌
abbrev pub ◌>>=◌ {ℓ κ} : {A : Type ℓ} {B : Type κ} → Parsed A → (A → Parsed B) → Parsed B
ok a >>= f = f a
err e >>= f = err e

-- The `read`, `write` and `size` of a field. A `write` returns its error code and leaves the view,
-- which it has written in part where it fails.
pub record Field (A : Type 0) : Type 0 where
  pub read : Bytes → Parsed (A × Bytes)
  pub write : A → WSeq → FormatError × WSeq
  pub size : A → ℕ

abbrev pub after_write : FormatError × WSeq → (WSeq → FormatError × WSeq) → FormatError × WSeq
after_write r k =
    let (e, w) = r in elim e [ ok ↦ k w | insufficient_space ↦ (insufficient_space, w) ]

-- `read_fields(input, value, args...)`, `write_fields` and `sum_sizes`: one field, then the others,
-- up to the first error.
infixr 60 ◌&◌
unfoldable pub ◌&◌ : {A B : Type 0} → Field A → Field B → Field (A × B)
f & g = record {
  read = λ input. f.read input >>= λ a. g.read a.1 >>= λ b. ok ((a.0, b.0), b.1);
  write = λ v dest. after_write (f.write v.0 dest) (g.write v.1);
  size = λ v. f.size v.0 + g.size v.1;
}

-- A struct is read and written as the chain of its fields.
unfoldable pub struct : {A B : Type 0} → (A → B) → (B → A) → Field B → Field A
struct fields make f = record {
  read = λ input. f.read input >>= λ b. ok (make b.0, b.1);
  write = λ a. f.write (fields a);
  size = λ a. f.size (fields a);
}
