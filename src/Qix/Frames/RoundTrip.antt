-- ===== src/Qix/Frames/RoundTrip.antt =====
-- What the writer of QIX frames writes, the parser reads.
use ssp21_cpp.Base.{
  ℕ, ◌-◌, ◌^◌, ◌≤◌, ◌<◌, ◌≡◌, refl, ap, sym, ◌∙◌, Bytes, [], ◌∷◌, ◌++◌, append_assoc, Option, none,
  some, length, length-append, take, drop, take-append, drop-append, take_all, ==_iff, ◌≢◌,
  Bool-cases, inl, inr, false, arith, ltb, le→ltb, ◌==◌, ==_refl,
}
use ssp21_cpp.Ser.{Ser4cpp, WSeq, fill, fill?, be8, be32, be64}
use ssp21_cpp.Wire.{Parsed}
use ssp21_cpp.Wire.Fields.{u32_field, u64_field, integer_field}
use ssp21_cpp.Wire.Fields.Integers.{u32_field-IsCodec, u64_field-IsCodec}
use ssp21_cpp.Wire.VLength.{or_no_bytes}
use ssp21_cpp.Crc.{calc, calc-lt}
use ssp21_cpp.Qix.{QixFrame, Status}
use ssp21_cpp.Qix.Frames.{
  sync1, sync2, QixFrameParser, find_sync, or_zero, read_frame_fields, calc_frame_crc,
  read_frame_crc, parse, and_write, written_fields, write,
}

-- What the CRC is taken over, and the whole frame.
abbrev pub crc_data : QixFrame → Bytes
crc_data frame = be64 frame.key_id ++ (frame.key_data ++ (1 ∷ []))

pub frame_bytes : QixFrame → Bytes
frame_bytes frame = sync1 ∷ sync2 ∷ (crc_data frame ++ be32 (calc (crc_data frame)))

length-crc_data : (frame : QixFrame) → length frame.key_data ≡ 32 → length (crc_data frame) ≡ 41
length-crc_data frame e = omega (arith, e, length-append frame.key_data (1 ∷ []))

length-frame_bytes :
    (frame : QixFrame) → length frame.key_data ≡ 32 → length (frame_bytes frame) ≡ 47
unfolding frame_bytes
length-frame_bytes frame e =
    omega (
      arith,
      length-crc_data frame e,
      length-append (crc_data frame) (be32 (calc (crc_data frame))),
    )

find_sync-frame_bytes : (frame : QixFrame) → find_sync (frame_bytes frame) ≡ frame_bytes frame
unfolding find_sync frame_bytes
find_sync-frame_bytes frame = refl

module _ ⦃ser : Ser4cpp⦄ where
  filled :
      (put : WSeq → Option WSeq) (w : WSeq) (xs : Bytes)
      → put w ≡ fill? w xs
      → length xs ≤ w.space
      → and_write put w ≡ fill w xs
  filled put w xs e room =
      let ran : put w ≡ some (fill w xs) = e ∙ (rw (le→ltb w.space (length xs) room)) in
      rw (ran, and_write)

  -- The view behind the fields, before the CRC.
  abbrev behind_fields : QixFrame → WSeq
  behind_fields frame = record {
    space = 37 - length frame.key_data - 1;
    written = sync1 ∷ sync2 ∷ crc_data frame;
  }

  written_fields_lem :
      (frame : QixFrame) → length frame.key_data ≡ 32 → written_fields frame ≡ behind_fields frame
  written_fields_lem frame e =
      let w0 : WSeq = record { space = 47; written = [] } in
      let w2 : WSeq = record { space = 45; written = sync1 ∷ sync2 ∷ [] } in
      let w3 = fill w2 (be64 frame.key_id) in
      let w4 = fill w3 frame.key_data in
      let e1 =
        filled (ser.write_u8 sync1) w0 (be8 sync1) (ser.write_u8_lem sync1 w0) (omega arith) in
      let w1 : WSeq = record { space = 46; written = sync1 ∷ [] } in
      let e2 =
        filled (ser.write_u8 sync2) w1 (be8 sync2) (ser.write_u8_lem sync2 w1) (omega arith) in
      let e3 =
        filled (ser.write_u64 frame.key_id) w2 (be64 frame.key_id)
          (ser.write_u64_lem frame.key_id w2) (omega arith) in
      let e4 = ser.copy_from_lem frame.key_data w3 (omega (arith, e)) in
      let e5 = filled (ser.write_u8 1) w4 (be8 1) (ser.write_u8_lem 1 w4) (omega (arith, e)) in
      ap
        (λ (w : WSeq). and_write (ser.write_u8 1) (
          ser.copy_from frame.key_data
            (and_write (ser.write_u64 frame.key_id) (and_write (ser.write_u8 sync2) w))))
        e1
      ∙ ap
          (λ (w : WSeq).
            and_write (ser.write_u8 1)
              (ser.copy_from frame.key_data (and_write (ser.write_u64 frame.key_id) w)))
          e2
      ∙ ap (λ (w : WSeq). and_write (ser.write_u8 1) (ser.copy_from frame.key_data w)) e3
      ∙ ap (and_write (ser.write_u8 1)) e4
      ∙ e5

  write-frame_bytes :
      (frame : QixFrame) → length frame.key_data ≡ 32 → write frame ≡ some (frame_bytes frame)
  unfolding write frame_bytes
  write-frame_bytes frame e =
      let data_length = length-crc_data frame e in
      let shown : take 41 (crc_data frame) ≡ crc_data frame =
        take_all 41 (crc_data frame) (omega (arith, data_length)) in
      let dest = behind_fields frame in
      let crc = calc (crc_data frame) in
      let last =
        filled (ser.write_u32 crc) dest (be32 crc) (ser.write_u32_lem crc dest)
          (omega (arith, e)) in
      rw (e, written_fields_lem frame e, shown, last)

  read_some :
      (v : ℕ) (rest : Bytes) (o : Option (ℕ × Bytes)) (input : Bytes)
      → or_no_bytes o ≡ Parsed.ok (v, rest)
      → or_zero o input ≡ (v, rest)
  read_some v rest none input e = cc
  read_some v rest (some r) input e = cc

  read_u64-be64 :
      (v : ℕ) (rest : Bytes)
      → v < 2 ^ 64
      → or_zero (ser.read_u64 (be64 v ++ rest)) (be64 v ++ rest) ≡ (v, rest)
  unfolding u64_field integer_field
  read_u64-be64 v rest h =
      read_some v rest (ser.read_u64 (be64 v ++ rest)) (be64 v ++ rest)
        (u64_field-IsCodec.reads v rest h)

  read_u32-be32 :
      (v : ℕ) (rest : Bytes)
      → v < 2 ^ 32
      → or_zero (ser.read_u32 (be32 v ++ rest)) (be32 v ++ rest) ≡ (v, rest)
  unfolding u32_field integer_field
  read_u32-be32 v rest h =
      read_some v rest (ser.read_u32 (be32 v ++ rest)) (be32 v ++ rest)
        (u32_field-IsCodec.reads v rest h)

  read_frame-frame_bytes :
      (frame : QixFrame)
      → length frame.key_data ≡ 32
      → frame.key_id < 2 ^ 64
      → read_frame_fields (frame_bytes frame) ≡ record frame { status = Status.ok }
  unfolding read_frame_fields frame_bytes
  read_frame-frame_bytes frame e small =
      let crc = be32 (calc (crc_data frame)) in
      let tail = frame.key_data ++ ((1 ∷ []) ++ crc) in
      let shape : drop 2 (frame_bytes frame) ≡ be64 frame.key_id ++ tail =
        ap (λ (t : Bytes). be64 frame.key_id ++ t) (append_assoc frame.key_data (1 ∷ []) crc) in
      let key : take 32 tail ≡ frame.key_data =
        ap (λ (n : ℕ). take n tail) (sym e) ∙ take-append frame.key_data ((1 ∷ []) ++ crc) in
      let status : drop 32 tail ≡ 1 ∷ crc =
        ap (λ (n : ℕ). drop n tail) (sym e) ∙ drop-append frame.key_data ((1 ∷ []) ++ crc) in
      rw (shape, read_u64-be64 frame.key_id tail small, key, status)

  write_refused : (frame : QixFrame) → length frame.key_data ≢ 32 → write frame ≡ none
  unfolding write
  write_refused frame other = elim (Bool-cases (length frame.key_data == 32)) [
    | inl same ↦ absurd (other ((==_iff (length frame.key_data) 32).0 same))
    | inr differs ↦ rw differs
  ]

  calc_frame_crc-frame_bytes :
      (frame : QixFrame)
      → length frame.key_data ≡ 32
      → calc_frame_crc (frame_bytes frame) ≡ calc (crc_data frame)
  unfolding calc_frame_crc frame_bytes
  calc_frame_crc-frame_bytes frame e =
      let crc = be32 (calc (crc_data frame)) in
      ap calc (
        ap (λ (n : ℕ). take n (crc_data frame ++ crc)) (sym (length-crc_data frame e))
        ∙ take-append (crc_data frame) crc)

  read_frame_crc-frame_bytes :
      (frame : QixFrame)
      → length frame.key_data ≡ 32
      → read_frame_crc (frame_bytes frame) ≡ calc (crc_data frame)
  unfolding read_frame_crc frame_bytes
  read_frame_crc-frame_bytes frame e =
      let crc = be32 (calc (crc_data frame)) in
      let tail : drop 43 (frame_bytes frame) ≡ crc ++ [] =
        ap (λ (n : ℕ). drop n (crc_data frame ++ crc)) (sym (length-crc_data frame e))
        ∙ drop-append (crc_data frame) crc in
      ap (λ (t : Bytes). (or_zero (ser.read_u32 t) t).0) tail
      ∙ ap (λ (r : ℕ × Bytes). r.0)
          (read_u32-be32 (calc (crc_data frame)) [] (calc-lt (crc_data frame)))

  parse-frame_bytes :
      (frame : QixFrame) (p : QixFrameParser)
      → length frame.key_data ≡ 32
      → frame.key_id < 2 ^ 64
      → p.buffer ≡ frame_bytes frame
      → (parse p).0 ≡ some (record frame { status = Status.ok })
  unfolding parse
  parse-frame_bytes frame p e small same =
      let whole = length-frame_bytes frame e in
      let enough : ltb (length (frame_bytes frame)) 47 ≡ false =
        le→ltb (length (frame_bytes frame)) 47 (omega (arith, whole)) in
      rw (
        same,
        find_sync-frame_bytes frame,
        enough,
        calc_frame_crc-frame_bytes frame e,
        read_frame_crc-frame_bytes frame e,
        ==_refl (calc (crc_data frame)),
        read_frame-frame_bytes frame e small,
      )

  -- A frame with a key of 32 bytes and an id of 64 bits is written, and the parser whose buffer
  -- holds what was written reads its id and its key, with the status `ok`. A key of another length
  -- is not written.
  pub parse-write :
      (frame : QixFrame) (p : QixFrameParser)
      → frame.key_id < 2 ^ 64
      → (length frame.key_data ≡ 32
          → (write frame ≡ some (frame_bytes frame))
            × (p.buffer ≡ frame_bytes frame
                → (parse p).0 ≡ some (record frame { status = Status.ok })))
        × (length frame.key_data ≢ 32 → write frame ≡ none)
  parse-write frame p small = (
    λ e. (write-frame_bytes frame e, parse-frame_bytes frame p e small),
    λ other. write_refused frame other,
  )
