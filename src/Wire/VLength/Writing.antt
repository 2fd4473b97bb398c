-- ===== src/Wire/VLength/Writing.antt =====
-- What `VLength::write` writes.
use ssp21_cpp.Base.{
  ℕ, zero, suc, ◌+◌, ◌/◌, ◌%◌, ◌^◌, ◌≤◌, ◌<◌, ◌≡◌, [], ◌∷◌, some, append_assoc, arith, length,
  le→ltb,
}
use ssp21_cpp.Ser.{Ser4cpp, WSeq, fill, be8, be16, be32}
use ssp21_cpp.Wire.{FormatError, insufficient_space}
use ssp21_cpp.Wire.VLength.{num_values_bytes, write_counted, write}
use ssp21_cpp.Wire.VLength.Format.{
  digits, counted, encode, IsU32, num_values_bytes_bounds, length-counted,
}

module _ ⦃ser : Ser4cpp⦄ where
  put_room : (v : ℕ) (w : WSeq) → 1 ≤ w.space → ser.put v w ≡ some (fill w (be8 v))
  put_room v w h = rw (ser.put_lem v w, le→ltb w.space 1 h)

  write_u16_room : (v : ℕ) (w : WSeq) → 2 ≤ w.space → ser.write_u16 v w ≡ some (fill w (be16 v))
  write_u16_room v w h = rw (ser.write_u16_lem v w, le→ltb w.space 2 h)

  write_u32_room : (v : ℕ) (w : WSeq) → 4 ≤ w.space → ser.write_u32 v w ≡ some (fill w (be32 v))
  write_u32_room v w h = rw (ser.write_u32_lem v w, le→ltb w.space 4 h)

  write_counted-fits :
      (n v : ℕ) (w : WSeq)
      → n ≤ 4
      → IsU32 v
      → n + 1 ≤ w.space
      → write_counted n v w ≡ (FormatError.ok, fill w (counted n v))
  unfolding write_counted
  write_counted-fits zero v w k h room = rw (put_room (v % 256) w room) (ground arith)
  write_counted-fits (suc zero) v w k h room =
      rw (put_room 0x81 w (omega arith), put_room (v % 256) (fill w (0x81 ∷ [])) (omega arith))
        (ground (arith, append_assoc w.written (129 ∷ []) (digits 1 v)))
  write_counted-fits (suc (suc zero)) v w k h room =
      rw
        (
          put_room 0x82 w (omega arith),
          write_u16_room (v % 65536) (fill w (0x82 ∷ [])) (omega arith),
        )
        (ground (arith, append_assoc w.written (130 ∷ []) (digits 2 v)))
  write_counted-fits (suc (suc (suc zero))) v w k h room =
      let w' = fill w (0x83 ∷ []) in
      rw
        (
          put_room 0x83 w (omega arith),
          put_room (v / 2 ^ 16 % 256) w' (omega arith),
          write_u16_room (v % 65536) (fill w' (be8 (v / 2 ^ 16 % 256))) (omega arith),
        )
        (ground (
          arith,
          append_assoc w.written (0x83 ∷ []) (be8 (v / 2 ^ 16 % 256)),
          append_assoc w.written (0x83 ∷ (v / 2 ^ 16 % 256) ∷ []) (be16 (v % 65536)),
        ))
  write_counted-fits (suc (suc (suc (suc zero)))) v w k h room =
      rw (put_room 0x84 w (omega arith), write_u32_room v (fill w (0x84 ∷ [])) (omega arith))
        (ground (arith, append_assoc w.written (0x84 ∷ []) (digits 4 v)))
  write_counted-fits (suc (suc (suc (suc (suc n))))) v w k h room = absurd (omega arith)

  write_counted-full :
      (n v : ℕ) (w : WSeq) → n ≤ 4 → w.space < n + 1 → (write_counted n v w).0 ≡ insufficient_space
  unfolding write_counted
  write_counted-full zero v w k h = ground (arith, ser.put_lem (v % 256) w)
  write_counted-full (suc zero) v w k h =
      ground (arith, ser.put_lem 0x81 w, ser.put_lem (v % 256) (fill w (0x81 ∷ [])))
  write_counted-full (suc (suc zero)) v w k h =
      ground (arith, ser.put_lem 0x82 w, ser.write_u16_lem (v % 65536) (fill w (0x82 ∷ [])))
  write_counted-full (suc (suc (suc zero))) v w k h =
      let w' = fill w (0x83 ∷ []) in
      ground (
        arith,
        ser.put_lem 0x83 w,
        ser.put_lem (v / 2 ^ 16 % 256) w',
        ser.write_u16_lem (v % 65536) (fill w' (be8 (v / 2 ^ 16 % 256))),
      )
  write_counted-full (suc (suc (suc (suc zero)))) v w k h =
      ground (arith, ser.put_lem 0x84 w, ser.write_u32_lem v (fill w (0x84 ∷ [])))
  write_counted-full (suc (suc (suc (suc (suc n))))) v w k h = absurd (omega arith)

  pub write_fits :
      (v : ℕ) (w : WSeq)
      → IsU32 v
      → length (encode v) ≤ w.space
      → write v w ≡ (FormatError.ok, fill w (encode v))
  unfolding write encode
  write_fits v w h room =
      write_counted-fits _ v w (num_values_bytes_bounds v h).0 h
        (omega (arith, length-counted (num_values_bytes v) v))

  pub write_full :
      (v : ℕ) (w : WSeq)
      → IsU32 v
      → w.space < length (encode v)
      → (write v w).0 ≡ insufficient_space
  unfolding write encode
  write_full v w h over =
      write_counted-full _ v w (num_values_bytes_bounds v h).0
        (omega (arith, length-counted (num_values_bytes v) v))
