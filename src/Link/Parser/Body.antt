-- ===== src/Link/Parser/Body.antt =====
-- The body state: a frame that is complete and whose CRC agrees stands in the buffer.
use ssp21_cpp.Base.{
  ℕ, zero, suc, ◌+◌, ◌≤◌, ◌≡◌, refl, sym, ap, ◌∙◌, Bytes, IsByte, All, All-drop, [], ◌∷◌, ◌++◌,
  arith, length, length-drop, take, drop, ◌==◌, ==_iff, ==_distinct, Bool-cases, inl, inr,
}
use ssp21_cpp.Ser.{Ser4cpp, be32}
use ssp21_cpp.Crc.{calc}
use ssp21_cpp.Wire.Fields.Integers.{u32_field-IsCodec, u32-read}
use ssp21_cpp.Link.{Addresses}
use ssp21_cpp.Link.Frame.{header_bytes, frame_bytes, IsAddresses}
use ssp21_cpp.Link.Parser.{
  wait_body, State, Context, transfer_data, read_crc, parse_moved_body, parse_body,
}
use ssp21_cpp.Link.Parser.Buffer.{length_take, take-add}
use ssp21_cpp.Link.Parser.Invariant.{IsFit, IsBody, IsNext, IsMoved, transfer_data-IsMoved}

drop_nil : (n : ℕ) → drop {A = ℕ} n [] ≡ []
drop_nil zero = refl
drop_nil (suc n) = refl

pub drop-drop : (m n : ℕ) (xs : Bytes) → drop n (drop m xs) ≡ drop (m + n) xs
drop-drop zero n xs = ap (λ (k : ℕ). drop k xs) (omega arith)
drop-drop (suc m) n [] = drop_nil n ∙ sym (drop_nil (suc m + n))
drop-drop (suc m) n (x ∷ xs) =
    let e : suc (m + n) ≡ suc m + n = omega arith in
    drop-drop m n xs ∙ ap (λ (k : ℕ). drop k (x ∷ xs)) e

module _ ⦃ser : Ser4cpp⦄ where
  take-read_crc : (xs : Bytes) → 4 ≤ length xs → All IsByte xs → take 4 xs ≡ be32 (read_crc xs)
  unfolding read_crc
  take-read_crc (a ∷ b ∷ c ∷ d ∷ rest) n h =
      let found = u32_field-IsCodec.sound (a ∷ b ∷ c ∷ d ∷ rest) _ rest h (u32-read a b c d rest) in
      rw (ser.read_u32_lem (a ∷ b ∷ c ∷ d ∷ rest), read_crc) (ap (take 4) found.1)
  take-read_crc _ n h = absurd (omega arith)

  -- The whole frame, from its parts in the buffer.
  frame_found :
      (buffer : Bytes) (a : Addresses) (len : ℕ)
      → All IsByte buffer
      → 16 + len ≤ length buffer
      → take 12 buffer ≡ header_bytes a len
      → calc (take len (drop 12 buffer)) ≡ read_crc (drop (12 + len) buffer)
      → (length (take len (drop 12 buffer)) ≡ len)
        × (take (12 + len + 4) buffer ≡ frame_bytes a (take len (drop 12 buffer)))
  unfolding frame_bytes
  frame_found buffer a len h room header crc =
      let behind = drop 12 buffer in
      let payload = take len behind in
      let len_behind = length-drop 12 buffer in
      let size : length payload ≡ len = length_take len behind (omega (arith, len_behind, room)) in
      let tail : take 4 (drop len behind) ≡ be32 (calc payload) =
        ap (take 4) (drop-drop 12 len buffer)
        ∙ take-read_crc (drop (12 + len) buffer)
            (omega (arith, length-drop (12 + len) buffer, room))
            (All-drop IsByte (12 + len) buffer h)
        ∙ ap be32 (sym crc) in
      let sum : 12 + len + 4 ≡ 12 + (len + 4) = omega arith in
      (
        size,
        ap (λ (k : ℕ). take k buffer) sum
            ∙ take-add 12 (len + 4) buffer
            ∙ ap (λ (xs : Bytes). xs ++ take (len + 4) behind)
                (header ∙ ap (header_bytes a) (sym size))
            ∙ ap (λ (xs : Bytes). header_bytes a (length payload) ++ xs)
                (take-add len 4 behind ∙ ap (λ (xs : Bytes). payload ++ xs) tail),
      )

  moved_body-IsNext :
      (n : ℕ) (ctx0 : Context) (input0 : Bytes) (num : ℕ) (ctx : Context) (input : Bytes)
      → IsMoved n (12 + ctx.payload_length + 4) ctx0 input0 num ctx input
      → 12 ≤ n
      → ctx.payload_length ≤ ctx.max_payload_length
      → take 12 ctx.buffer ≡ header_bytes ctx.addresses ctx.payload_length
      → IsAddresses ctx.addresses
      → IsNext n input0 (parse_moved_body (12 + ctx.payload_length + 4) (num, ctx, input))
  unfolding parse_moved_body
  moved_body-IsNext n ctx0 input0 num ctx input M started within header range =
      let len = ctx.payload_length in
      let payload = take len (drop 12 ctx.buffer) in
      let crc = read_crc (drop (12 + len) ctx.buffer) in
      elim (Bool-cases (num == 12 + len + 4)) [
        | inr e ↦
            let other = ==_distinct num (12 + len + 4) e in
            rw e record {
              valid = record {
                fit = M.fit;
                phase = record {
                  started = omega (arith, M.at_least, started);
                  short = omega (arith, M.at_most, other);
                  within = within;
                  header = header;
                  in_range = range;
                };
              };
              rest = M.rest;
              shorter = M.shorter;
              few = λ h. omega (arith, M.total, h);
            }
        | inl e ↦
            let same = (==_iff num (12 + len + 4)).0 e in
            elim (Bool-cases (calc payload == crc)) [
              | inr bad ↦
                  rw (e, bad)
                    record {
                      valid = record {
                        fit = record { sized = M.fit.sized; bytes = M.fit.bytes };
                        phase = refl;
                      };
                      rest = M.rest;
                      shorter = M.shorter;
                      few = λ h. omega (arith, M.total, h);
                    }
              | inl good ↦
                  let agree = (==_iff (calc payload) crc).0 good in
                  let (size, frame) =
                    frame_found ctx.buffer ctx.addresses len M.fit.bytes
                      (omega (arith, M.fit.sized, within)) header agree in
                  rw (e, good)
                    record {
                      valid = record {
                        fit = record { sized = M.fit.sized; bytes = M.fit.bytes };
                        phase = record {
                          long = omega (arith, same);
                          frame = ap (λ (k : ℕ). take k ctx.buffer) same ∙ frame;
                          within = omega (arith, size, within);
                          in_range = range;
                        };
                      };
                      rest = M.rest;
                      shorter = M.shorter;
                      few = λ h. omega (arith, M.total, h);
                    }
            ]
      ]

  pub parse_body-IsNext :
      (num : ℕ) (ctx : Context) (b : ℕ) (input : Bytes)
      → IsFit ctx
      → IsBody num ctx
      → All IsByte (b ∷ input)
      → IsNext num
          (b ∷ input)
          (parse_body (record { value = wait_body; num_buffered = num }) ctx (b ∷ input))
  unfolding parse_body transfer_data
  parse_body-IsNext num ctx b input F B h =
      let state : State = record { value = wait_body; num_buffered = num } in
      let M =
        transfer_data-IsMoved state ctx b input (12 + ctx.payload_length + 4) F h
          (omega (arith, B.short)) (omega (arith, F.sized, B.within)) in
      moved_body-IsNext num ctx (b ∷ input) _ _ _ M B.started B.within
        (M.kept 12 B.started ∙ B.header) B.in_range
