-- ===== src/Wire/Fields/ByteSeq.antt =====
-- The contract of a sequence of bytes.
use mathlib.Core.Path.{subst}
use native.Mathlib.Decide.{dec_le}
use ssp21_cpp.Base.{
  ℕ, ◌-◌, ◌≤◌, ◌<◌, ◌≡◌, sym, ap, ◌∙◌, Bytes, IsByte, All, All-append, All-append_right, All-take,
  ◌++◌, append_assoc, arith, length, length-append, length-take, take, drop, take-append,
  drop-append, take-append-drop, ltb, le→ltb, lt→ltb, ltb-false, Bool-cases, inl, inr,
}
use ssp21_cpp.Ser.{Ser4cpp, WSeq, fill}
use ssp21_cpp.Wire.{Parsed, ok, FormatError, insufficient_space}
use ssp21_cpp.Wire.Codec.{IsCodec, >>=-reads, fill_twice, after_write-full}
use ssp21_cpp.Wire.VLength
use ssp21_cpp.Wire.VLength.Format.{encode, IsU32, length-encode, encode-IsByte}
use ssp21_cpp.Wire.VLength.Writing.{write_fits, write_full}
use ssp21_cpp.Wire.VLength.Reading.{read-encode, read_sound}
use ssp21_cpp.Wire.Fields.{copy_bytes, seq_byte_field}

-- A sequence on the wire: its length, then its bytes.
abbrev pub IsSeq : Bytes → Type 0
IsSeq bs = IsU32 (length bs) × All IsByte bs

abbrev pub seq_bytes : Bytes → Bytes
seq_bytes bs = encode (length bs) ++ bs

module _ ⦃ser : Ser4cpp⦄ where
  seq-reads :
      (bs rest : Bytes) → IsSeq bs → seq_byte_field.read (seq_bytes bs ++ rest) ≡ ok (bs, rest)
  unfolding seq_byte_field
  seq-reads bs rest h =
      rw (append_assoc (encode (length bs)) bs rest, read-encode (length bs) (bs ++ rest) h.0)
        (rw (
          le→ltb (length (bs ++ rest)) (length bs) (omega (arith, length-append bs rest)),
          take-append bs rest,
          drop-append bs rest,
        ))

  seq-fits :
      (bs : Bytes) (w : WSeq)
      → IsSeq bs
      → length (seq_bytes bs) ≤ w.space
      → seq_byte_field.write bs w ≡ (FormatError.ok, fill w (seq_bytes bs))
  unfolding seq_byte_field
  seq-fits bs w h room =
      let n = length-append (encode (length bs)) bs in
      rw (write_fits (length bs) w h.0 (omega arith)) (
        rw (
          le→ltb (w.space - length (encode (length bs))) (length bs) (omega arith),
          ser.copy_from_lem bs (fill w (encode (length bs))) (omega arith),
          fill_twice w (encode (length bs)) bs,
        ))

  seq-full :
      (bs : Bytes) (w : WSeq)
      → IsSeq bs
      → w.space < length (seq_bytes bs)
      → (seq_byte_field.write bs w).0 ≡ insufficient_space
  unfolding seq_byte_field
  seq-full bs w h over = elim (dec_le (length (encode (length bs))) w.space) [
    | yes fits ↦ rw (write_fits (length bs) w h.0 fits) (
        rw (
          lt→ltb (w.space - length (encode (length bs))) (length bs)
            (omega (arith, length-append (encode (length bs)) bs))))
    | no full ↦
        after_write-full (VLength.write (length bs) w) (copy_bytes bs)
          (write_full (length bs) w h.0 (omega arith))
  ]

  -- The cut behind a length that has been read.
  cut_take :
      (s s' bs rest : Bytes) (n : ℕ)
      → IsU32 n
      → All IsByte s'
      → s ≡ encode n ++ s'
      → n ≤ length s'
      → ◌≡◌ {A = Parsed (Bytes × Bytes)} (ok (take n s', drop n s')) (ok (bs, rest))
      → IsSeq bs × (s ≡ seq_bytes bs ++ rest)
  cut_take s s' bs rest n small h split fits e =
      let taken : take n s' ≡ bs = cc in
      let left : drop n s' ≡ rest = cc in
      let size : length bs ≡ n = omega (arith, ap length taken, length-take n s') in
      let whole : s' ≡ bs ++ rest = rw (← taken, ← left) (sym (take-append-drop n s')) in
      (
        (rw size small, subst (All IsByte) taken (All-take IsByte n s' h)),
        rw (size, append_assoc (encode n) bs rest) (split ∙ ap (◌++◌ (encode n)) whole),
      )

  bytes_sound :
      (s bs rest : Bytes)
      → All IsByte s
      → seq_byte_field.read s ≡ ok (bs, rest)
      → IsSeq bs × (s ≡ seq_bytes bs ++ rest)
  unfolding seq_byte_field
  bytes_sound s bs rest h e =
      let ((n, s'), en, k) = >>=-reads (VLength.read s) _ e in
      let (small, split) = read_sound s n s' h en in
      elim (Bool-cases (ltb (length s') n)) [
        | inl short ↦ cc (rw short at k)
        | inr long ↦
            cut_take s s' bs rest n small
              (All-append_right IsByte (encode n) s' (subst (All IsByte) split h)) split
              (ltb-false (length s') n long) (rw long at k)
      ]

  pub seq_byte_field-IsCodec : IsCodec seq_byte_field IsSeq seq_bytes
  unfolding seq_byte_field
  seq_byte_field-IsCodec = record {
    reads = seq-reads;
    fits = seq-fits;
    full = seq-full;
    sized = λ bs h. omega (arith, length-append (encode (length bs)) bs, length-encode (length bs));
    bytes = λ bs h. All-append IsByte (encode (length bs)) bs (encode-IsByte (length bs)) h.1;
    sound = bytes_sound;
  }
