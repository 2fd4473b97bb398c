-- ===== src/Wire/Fields/Integers.antt =====
-- The contract of the integer and enumeration fields.
use ssp21_cpp.Base.{
  ℕ, ◌+◌, ◌%◌, ◌*◌, ◌^◌, ◌≤◌, ◌<◌, ◌≡◌, refl, sym, ◌∙◌, false, Bytes, IsByte, All, [], ◌∷◌, ◌++◌,
  arith, length, le→ltb, lt→ltb, Option, none, some, Bool-cases, inl, inr,
}
use ssp21_cpp.Ser.{
  Ser4cpp, WSeq, fill, fill?, be8, be16, be32, be64, from_be8, from_be16, from_be32, from_be64,
}
use ssp21_cpp.Wire.{ok, FormatError, insufficient_space}
use ssp21_cpp.Wire.Codec.{IsCodec}
use ssp21_cpp.Wire.VLength.{or_no_bytes, or_no_space}
use ssp21_cpp.Wire.Fields.{
  Spec, integer_field, u8_field, u16_field, u32_field, u64_field, enum_field, defined_or_error,
}

abbrev pub IsU : ℕ → ℕ → Type 0
IsU k v = v < 2 ^ k

or_no_space-fits :
    (w : WSeq) (xs : Bytes)
    → length xs ≤ w.space
    → or_no_space w (fill? w xs) ≡ (FormatError.ok, fill w xs)
or_no_space-fits w xs h = rw (le→ltb w.space (length xs) h)

or_no_space-full :
    (w : WSeq) (xs : Bytes)
    → w.space < length xs
    → (or_no_space w (fill? w xs)).0 ≡ insufficient_space
or_no_space-full w xs h = rw (lt→ltb w.space (length xs) h)

or_no_bytes-ok : {A : Type 0} (o : Option A) (a : A) → or_no_bytes o ≡ ok a → o ≡ some a
or_no_bytes-ok none a e = cc
or_no_bytes-ok (some b) a e = cc

-- What a codec of one integer format owes.
record IsFormat (k size : ℕ) (encode : ℕ → Bytes) (decode : Bytes → Option (ℕ × Bytes))
    : Type 0 where
  len : (v : ℕ) → length (encode v) ≡ size
  digits : (v : ℕ) → All IsByte (encode v)
  back : (v : ℕ) (rest : Bytes) → IsU k v → decode (encode v ++ rest) ≡ some (v, rest)
  only :
      (s : Bytes) (v : ℕ) (rest : Bytes)
      → All IsByte s
      → decode s ≡ some (v, rest)
      → IsU k v × (s ≡ encode v ++ rest)

integer-IsCodec :
    {k size : ℕ} {encode : ℕ → Bytes} {decode : Bytes → Option (ℕ × Bytes)}
    (read_from : Bytes → Option (ℕ × Bytes)) (write_to : ℕ → WSeq → Option WSeq)
    → ((s : Bytes) → read_from s ≡ decode s)
    → ((v : ℕ) (w : WSeq) → write_to v w ≡ fill? w (encode v))
    → IsFormat k size encode decode
    → IsCodec (integer_field size read_from write_to) (IsU k) encode
unfolding integer_field
integer-IsCodec {encode} read_from write_to reads writes F = record {
  reads = λ v rest h. rw (reads (encode v ++ rest), F.back v rest h);
  fits = λ v w h room. rw (writes v w) (or_no_space-fits w (encode v) room);
  full = λ v w h over. rw (writes v w) (or_no_space-full w (encode v) over);
  sized = λ v h. sym (F.len v);
  bytes = λ v h. F.digits v;
  sound =
      λ s v rest h e. F.only s v rest h (sym (reads s) ∙ or_no_bytes-ok (read_from s) (v, rest) e);
}

be8-IsFormat : IsFormat 8 1 be8 from_be8
be8-IsFormat = record {
  len = λ v. refl;
  digits = λ v. omega arith;
  back = λ v rest h. ground arith;
  only = only;
}
  where
    only :
        (s : Bytes) (v : ℕ) (rest : Bytes)
        → All IsByte s
        → from_be8 s ≡ some (v, rest)
        → IsU 8 v × (s ≡ be8 v ++ rest)
    only [] v rest h e = cc
    only (a ∷ s) v rest h e = ground arith

be16-IsFormat : IsFormat 16 2 be16 from_be16
be16-IsFormat = record {
  len = λ v. refl;
  digits = λ v. omega arith;
  back = λ v rest h. ground arith;
  only = only;
}
  where
    only :
        (s : Bytes) (v : ℕ) (rest : Bytes)
        → All IsByte s
        → from_be16 s ≡ some (v, rest)
        → IsU 16 v × (s ≡ be16 v ++ rest)
    only (a ∷ b ∷ s) v rest h e = ground arith
    only _ v rest h e = cc

be32-IsFormat : IsFormat 32 4 be32 from_be32
be32-IsFormat = record {
  len = λ v. refl;
  digits = λ v. omega arith;
  back = λ v rest h. ground arith;
  only = only;
}
  where
    only :
        (s : Bytes) (v : ℕ) (rest : Bytes)
        → All IsByte s
        → from_be32 s ≡ some (v, rest)
        → IsU 32 v × (s ≡ be32 v ++ rest)
    only (a ∷ b ∷ c ∷ d ∷ s) v rest h e = ground arith
    only _ v rest h e = cc

be64-IsFormat : IsFormat 64 8 be64 from_be64
be64-IsFormat = record {
  len = λ v. refl;
  digits = λ v. omega arith;
  back = λ v rest h. ground arith;
  only = only;
}
  where
    only :
        (s : Bytes) (v : ℕ) (rest : Bytes)
        → All IsByte s
        → from_be64 s ≡ some (v, rest)
        → IsU 64 v × (s ≡ be64 v ++ rest)
    only (a ∷ b ∷ c ∷ d ∷ a' ∷ b' ∷ c' ∷ d' ∷ s) v rest h e = ground arith
    only _ v rest h e = cc

module _ ⦃ser : Ser4cpp⦄ where
  pub u8_field-IsCodec : IsCodec u8_field (IsU 8) be8
  unfolding u8_field
  u8_field-IsCodec = integer-IsCodec _ _ ser.read_u8_lem ser.write_u8_lem be8-IsFormat

  pub u16_field-IsCodec : IsCodec u16_field (IsU 16) be16
  unfolding u16_field
  u16_field-IsCodec = integer-IsCodec _ _ ser.read_u16_lem ser.write_u16_lem be16-IsFormat

  pub u32_field-IsCodec : IsCodec u32_field (IsU 32) be32
  unfolding u32_field
  u32_field-IsCodec = integer-IsCodec _ _ ser.read_u32_lem ser.write_u32_lem be32-IsFormat

  pub u64_field-IsCodec : IsCodec u64_field (IsU 64) be64
  unfolding u64_field
  u64_field-IsCodec = integer-IsCodec _ _ ser.read_u64_lem ser.write_u64_lem be64-IsFormat

module _ ⦃ser : Ser4cpp⦄ where
  pub u16-read : (a b : ℕ) (rest : Bytes) → u16_field.read (a ∷ b ∷ rest) ≡ ok (a * 256 + b, rest)
  unfolding u16_field
  u16-read a b rest = rw (ser.read_u16_lem (a ∷ b ∷ rest))

  pub u32-read :
      (a b c d : ℕ) (rest : Bytes)
      → u32_field.read (a ∷ b ∷ c ∷ d ∷ rest) ≡ ok (a * 16777216 + b * 65536 + c * 256 + d, rest)
  unfolding u32_field
  u32-read a b c d rest = rw (ser.read_u32_lem (a ∷ b ∷ c ∷ d ∷ rest))

-- An enumeration's two functions undo one another on its defined values.
pub record IsSpec {E : Type 0} (spec : Spec E) : Type 0 where
  pub to_byte : (e : E) → IsByte (spec.to_type e)
  pub from-to : (e : E) → spec.from_type (spec.to_type e) ≡ e
  pub to-from :
      (b : ℕ)
      → IsByte b
      → spec.is_undefined (spec.from_type b) ≡ false
      → spec.to_type (spec.from_type b) ≡ b

module _ ⦃ser : Ser4cpp⦄ {E : Type 0} {spec : Spec E} (S : IsSpec spec) where
  enum_checked :
      (b : ℕ) (s : Bytes) (e : E) (rest : Bytes)
      → IsByte b
      → defined_or_error spec (b, s) ≡ ok (e, rest)
      → (spec.is_undefined e ≡ false) × (b ∷ s ≡ spec.to_type e ∷ rest)
  enum_checked b s e rest h p = elim (Bool-cases (spec.is_undefined (spec.from_type b))) [
    | inl u ↦ cc (rw u at p)
    | inr d ↦
        let found : spec.from_type b ≡ e = cc (rw d at p) in
        (rw (← found) d, cc (S.to-from b h d, rw d at p))
  ]

  enum_sound :
      (s : Bytes) (e : E) (rest : Bytes)
      → All IsByte s
      → (enum_field spec).read s ≡ ok (e, rest)
      → (spec.is_undefined e ≡ false) × (s ≡ (spec.to_type e ∷ []) ++ rest)
  unfolding enum_field
  enum_sound [] e rest h p = cc (ser.read_u8_lem [])
  enum_sound (b ∷ s) e rest (hb, hs) p =
      enum_checked b s e rest hb (rw (ser.read_u8_lem (b ∷ s), or_no_bytes) at p)

  byte : (e : E) → spec.to_type e % 256 ≡ spec.to_type e
  byte e = omega (arith, S.to_byte e)

  pub enum_field-IsCodec :
      IsCodec (enum_field spec) (λ e. spec.is_undefined e ≡ false) (λ e. spec.to_type e ∷ [])
  unfolding enum_field
  enum_field-IsCodec = record {
    reads = λ e rest h. rw (ser.read_u8_lem (spec.to_type e ∷ rest), or_no_bytes, S.from-to e, h);
    fits = λ e w h room.
        rw (ser.write_u8_lem (spec.to_type e) w, byte e)
          (or_no_space-fits w (spec.to_type e ∷ []) room);
    full = λ e w h over.
        rw (ser.write_u8_lem (spec.to_type e) w, byte e)
          (or_no_space-full w (spec.to_type e ∷ []) over);
    sized = λ e h. refl;
    bytes = λ e h. (S.to_byte e, tt);
    sound = enum_sound;
  }
