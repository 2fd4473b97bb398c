-- ===== src/Ser.antt =====
-- The byte sequences and integer codecs of ser4cpp, which cpp/libs/ssp21/include/ssp21/util/
-- SequenceTypes.h names and every reader and writer uses. ser4cpp itself is not part of the
-- repository: its codecs are the fields of `Ser4cpp`, with their documented behaviour as laws.
pub mod BigEndian
use ssp21_cpp.Base.{
  ℕ, ◌+◌, ◌-◌, ◌*◌, ◌/◌, ◌%◌, ◌≤◌, ◌≡◌, Option, none, some, List, [], ◌∷◌, ◌++◌, Bytes, length, ltb,
  if◌then◌else◌,
}

-- A writable view: the room that is left in it, and the bytes written into it so far.
pub record WSeq : Type 0 where
  pub space : ℕ
  pub written : Bytes

-- The view after `bytes` have been written into it.
abbrev pub fill : WSeq → Bytes → WSeq
fill w bytes = record { space = w.space - length bytes; written = w.written ++ bytes }

abbrev pub fill? : WSeq → Bytes → Option WSeq
fill? w bytes = if ltb w.space (length bytes) then none else some (fill w bytes)

-- Big-endian digits.
abbrev pub be8 : ℕ → Bytes
be8 v = (v % 256) ∷ []

abbrev pub be16 : ℕ → Bytes
be16 v = (v / 256 % 256) ∷ (v % 256) ∷ []

abbrev pub be32 : ℕ → Bytes
be32 v = (v / 16777216 % 256) ∷ (v / 65536 % 256) ∷ (v / 256 % 256) ∷ (v % 256) ∷ []

abbrev pub be64 : ℕ → Bytes
be64 v = be32 (v / 4294967296) ++ be32 v

abbrev pub from_be8 : Bytes → Option (ℕ × Bytes)
from_be8 [] = none
from_be8 (a ∷ rest) = some (a, rest)

abbrev pub from_be16 : Bytes → Option (ℕ × Bytes)
from_be16 (a ∷ b ∷ rest) = some (a * 256 + b, rest)
from_be16 _ = none

abbrev pub from_be32 : Bytes → Option (ℕ × Bytes)
from_be32 (a ∷ b ∷ c ∷ d ∷ rest) = some (a * 16777216 + b * 65536 + c * 256 + d, rest)
from_be32 _ = none

abbrev pub from_be64 : Bytes → Option (ℕ × Bytes)
from_be64 (a ∷ b ∷ c ∷ d ∷ e ∷ f ∷ g ∷ h ∷ rest) = some (
  (a * 16777216 + b * 65536 + c * 256 + d) * 4294967296 + (e * 16777216 + f * 65536 + g * 256 + h),
  rest,
)
from_be64 _ = none

-- `read_from` answers `none` for `false`, with the view as it was; `write_to` likewise.
-- `put` is the view's own write of one byte, `copy_from` its write of a whole sequence.
pub record Ser4cpp : Type 0 where
  pub read_u8 : Bytes → Option (ℕ × Bytes)
  pub read_u16 : Bytes → Option (ℕ × Bytes)
  pub read_u32 : Bytes → Option (ℕ × Bytes)
  pub read_u64 : Bytes → Option (ℕ × Bytes)
  pub put : ℕ → WSeq → Option WSeq
  pub write_u8 : ℕ → WSeq → Option WSeq
  pub write_u16 : ℕ → WSeq → Option WSeq
  pub write_u32 : ℕ → WSeq → Option WSeq
  pub write_u64 : ℕ → WSeq → Option WSeq
  pub copy_from : Bytes → WSeq → WSeq
  pub read_u8_lem : (s : Bytes) → read_u8 s ≡ from_be8 s
  pub read_u16_lem : (s : Bytes) → read_u16 s ≡ from_be16 s
  pub read_u32_lem : (s : Bytes) → read_u32 s ≡ from_be32 s
  pub read_u64_lem : (s : Bytes) → read_u64 s ≡ from_be64 s
  pub put_lem : (v : ℕ) (w : WSeq) → put v w ≡ fill? w (be8 v)
  pub write_u8_lem : (v : ℕ) (w : WSeq) → write_u8 v w ≡ fill? w (be8 v)
  pub write_u16_lem : (v : ℕ) (w : WSeq) → write_u16 v w ≡ fill? w (be16 v)
  pub write_u32_lem : (v : ℕ) (w : WSeq) → write_u32 v w ≡ fill? w (be32 v)
  pub write_u64_lem : (v : ℕ) (w : WSeq) → write_u64 v w ≡ fill? w (be64 v)
  pub copy_from_lem : (s : Bytes) (w : WSeq) → length s ≤ w.space → copy_from s w ≡ fill w s
