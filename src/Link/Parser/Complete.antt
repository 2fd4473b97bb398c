-- ===== src/Link/Parser/Complete.antt =====
-- A whole frame is found by a parser that waits for one, whatever noise comes before it.
use ssp21_cpp.Base.{
  ℕ, zero, suc, ◌+◌, ◌-◌, ◌^◌, ◌≤◌, ◌<◌, ◌≡◌, ◌≢◌, refl, sym, ap, ◌∙◌, Bytes, All, [], ◌∷◌, ◌++◌,
  append_assoc, Option, false, some, none, arith, length, length-append, take, drop, take-append,
  drop-append, min, le→ltb, ◌==◌, ==_iff, ==_refl, Bool-cases, inl, inr,
}
use ssp21_cpp.Ser.{Ser4cpp, be32}
use ssp21_cpp.Wire.{ok}
use ssp21_cpp.Wire.Fields.Integers.{u32_field-IsCodec}
use ssp21_cpp.Wire.Fields.{u32_field, integer_field}
use ssp21_cpp.Wire.VLength.{or_no_bytes}
use ssp21_cpp.Crc.{calc, calc-lt}
use ssp21_cpp.Link.{Addresses, sync1, sync2}
use ssp21_cpp.Link.Frame.{fields_bytes, header_bytes, body_bytes, frame_bytes, IsAddresses}
use ssp21_cpp.Link.Parser
use ssp21_cpp.Link.Parser.{
  State, at_sync1, at_sync2, at_header, at_body, at_read, Context, Outcome, Reparse, overwrite,
  transfer_data, parse_sync1, parse_sync2, parse_value, is_wait_read, parse_one, parse_many,
  parse_header, parse_moved_header, check_header, header_chain, parse_body, parse_moved_body,
  read_crc, reparse_at, LinkParser, parse,
}
use ssp21_cpp.Link.Parser.Header.{chain-IsCodec}
use ssp21_cpp.Link.Parser.Body.{drop-drop}
use ssp21_cpp.Link.Parser.Invariant.{moved}

abbrev pub IsNoise : ℕ → Type 0
IsNoise b = b ≢ sync1

parse_sync1-found :
    (noise input : Bytes) (ctx : Context)
    → All IsNoise noise
    → parse_sync1 ctx (noise ++ (sync1 ∷ input))
      ≡ record { state = at_sync2; ctx = moved ctx 0 (sync1 ∷ []); input = input }
unfolding parse_sync1
parse_sync1-found [] input ctx h = refl
parse_sync1-found (b ∷ noise) input ctx (other, h) = elim (Bool-cases (b == sync1)) [
  | inl e ↦ absurd (other ((==_iff b sync1).0 e))
  | inr e ↦ rw e (parse_sync1-found noise input ctx h)
]

length-frame_bytes : (a : Addresses) (xs : Bytes) → length (frame_bytes a xs) ≡ 16 + length xs
unfolding frame_bytes
length-frame_bytes a xs = omega (arith, length-append xs (be32 (calc xs)))

-- What `transfer_data` moves where there is as much as it wants.
transfer_data_all :
    (state : State) (ctx : Context) (xs input : Bytes) (max_bytes : ℕ)
    → state.num_buffered + length xs ≡ max_bytes
    → transfer_data state ctx (xs ++ input) max_bytes
      ≡ (max_bytes, moved ctx state.num_buffered xs, input)
unfolding transfer_data
transfer_data_all state ctx xs input max_bytes e =
    let sum = length-append xs input in
    let count : min (max_bytes - state.num_buffered) (length (xs ++ input)) ≡ length xs =
      omega (arith, e, sum) in
    let total : length xs + state.num_buffered ≡ max_bytes = omega (arith, e) in
    rw (count, take-append xs input, drop-append xs input, total)

module _ ⦃ser : Ser4cpp⦄ where
  -- One round of the loop.
  round :
      (reparse : Reparse) (fuel : ℕ) (state : State) (ctx : Context) (b : ℕ) (input : Bytes)
      (o : Outcome)
      → is_wait_read state.value ≡ false
      → parse_one reparse state ctx (b ∷ input) ≡ some o
      → parse_many reparse (suc fuel) state ctx (b ∷ input)
        ≡ parse_many reparse fuel o.state o.ctx o.input
  unfolding parse_many
  round reparse fuel state ctx b input o w ran = rw (w, parse_many, ran)

  ended :
      (reparse : Reparse) (fuel num : ℕ) (ctx : Context) (input : Bytes)
      → parse_many reparse fuel (at_read num) ctx input
        ≡ some (record { state = at_read num; ctx = ctx; input = input })
  unfolding parse_many
  ended reparse fuel num ctx [] = refl
  ended reparse zero num ctx (b ∷ input) = refl
  ended reparse (suc fuel) num ctx (b ∷ input) = refl

  sync1_step :
      (noise : Bytes) (reparse : Reparse) (fuel : ℕ) (ctx : Context) (input : Bytes)
      → All IsNoise noise
      → parse_many reparse (suc fuel) at_sync1 ctx (noise ++ (sync1 ∷ input))
        ≡ parse_many reparse fuel at_sync2 (moved ctx 0 (sync1 ∷ [])) input
  unfolding parse_one parse_value
  sync1_step [] reparse fuel ctx input h =
      round reparse fuel at_sync1 ctx sync1 input _ refl
        (ap some (parse_sync1-found [] input ctx h))
  sync1_step (b ∷ noise) reparse fuel ctx input h =
      round reparse fuel at_sync1 ctx b (noise ++ (sync1 ∷ input)) _ refl
        (ap some (parse_sync1-found (b ∷ noise) input ctx h))

  sync2_step :
      (reparse : Reparse) (fuel : ℕ) (ctx : Context) (input : Bytes)
      → parse_many reparse (suc fuel) at_sync2 ctx (sync2 ∷ input)
        ≡ parse_many reparse fuel (at_header 2) (moved ctx 1 (sync2 ∷ [])) input
  unfolding parse_one parse_value parse_sync2
  sync2_step reparse fuel ctx input = round reparse fuel at_sync2 ctx sync2 input _ refl refl

  -- The context with a header in its buffer.
  abbrev with_header : Context → Addresses → ℕ → Bytes → Context
  with_header ctx a n tail = record ctx {
    buffer = header_bytes a n ++ tail;
    addresses = a;
    payload_length = n;
  }

  moved_header :
      (reparse : Reparse) (ctx : Context) (a : Addresses) (n : ℕ) (tail input : Bytes)
      → IsAddresses a
      → n < 2 ^ 16
      → n ≤ ctx.max_payload_length
      → parse_moved_header reparse (12, record ctx { buffer = header_bytes a n ++ tail }, input)
        ≡ some (record { state = at_body 12; ctx = with_header ctx a n tail; input = input })
  unfolding parse_moved_header check_header
  moved_header reparse ctx a n tail input A small fits =
      let crc = calc (fields_bytes a n) in
      let found =
        chain-IsCodec.reads (a.destination, (a.source, (n, crc))) tail
          (A.destination_u16, (A.source_u16, (small, calc-lt (fields_bytes a n)))) in
      rw (found, check_header, ==_refl crc, le→ltb ctx.max_payload_length n fits)

  header_step :
      (reparse : Reparse) (fuel : ℕ) (ctx : Context) (a : Addresses) (n : ℕ) (tail input : Bytes)
      → ctx.buffer ≡ sync1 ∷ sync2 ∷ tail
      → IsAddresses a
      → n < 2 ^ 16
      → n ≤ ctx.max_payload_length
      → parse_many reparse (suc fuel) (at_header 2) ctx (drop 2 (header_bytes a n) ++ input)
        ≡ parse_many reparse fuel (at_body 12) (with_header ctx a n (drop 10 tail)) input
  unfolding parse_one parse_value parse_header
  header_step reparse fuel ctx a n tail input e A small fits =
      let moves =
        transfer_data_all (at_header 2) ctx (drop 2 (header_bytes a n)) input 12 (omega arith) in
      let same : moved ctx 2 (drop 2 (header_bytes a n))
          ≡ record ctx { buffer = header_bytes a n ++ drop 10 tail } =
        ap (λ (b : Bytes). record ctx { buffer = overwrite b 2 (drop 2 (header_bytes a n)) }) e in
      round reparse fuel (at_header 2) ctx _ _ _ refl (
        ap (parse_moved_header reparse) moves
        ∙ ap (λ (c : Context). parse_moved_header reparse (12, c, input)) same
        ∙ moved_header reparse ctx a n (drop 10 tail) input A small fits)

  read_crc-be32 : (v : ℕ) (rest : Bytes) → v < 2 ^ 32 → read_crc (be32 v ++ rest) ≡ v
  unfolding read_crc u32_field integer_field
  read_crc-be32 v rest h =
      found (ser.read_u32 (be32 v ++ rest)) refl (u32_field-IsCodec.reads v rest h)
    where
      found :
          (o : Option (ℕ × Bytes))
          → ser.read_u32 (be32 v ++ rest) ≡ o
          → or_no_bytes o ≡ ok (v, rest)
          → read_crc (be32 v ++ rest) ≡ v
      found none same e = cc
      found (some r) same e =
          let whole : r ≡ (v, rest) = cc in rw (same, read_crc) (ap (λ (r : ℕ × Bytes). r.0) whole)

  moved_body :
      (ctx : Context) (header payload back input : Bytes)
      → length header ≡ 12
      → ctx.payload_length ≡ length payload
      → ctx.buffer ≡ header ++ (body_bytes payload ++ back)
      → parse_moved_body (12 + length payload + 4) (12 + length payload + 4, ctx, input) ≡ record {
        state = at_read (12 + length payload + 4);
        ctx = record ctx { payload = payload };
        input = input;
      }
  unfolding parse_moved_body
  moved_body ctx header payload back input size len e =
      let n = length payload in
      let crc = be32 (calc payload) in
      let behind : drop 12 ctx.buffer ≡ payload ++ (crc ++ back) =
        ap (drop 12) e
        ∙ ap (λ (k : ℕ). drop k (header ++ (body_bytes payload ++ back))) (sym size)
        ∙ drop-append header (body_bytes payload ++ back)
        ∙ append_assoc payload crc back in
      let shown : take n (drop 12 ctx.buffer) ≡ payload =
        ap (take n) behind ∙ take-append payload (crc ++ back) in
      let tail : drop (12 + n) ctx.buffer ≡ crc ++ back =
        sym (drop-drop 12 n ctx.buffer) ∙ ap (drop n) behind ∙ drop-append payload (crc ++ back) in
      rw (
        len,
        ==_refl (12 + n + 4),
        shown,
        tail,
        read_crc-be32 (calc payload) back (calc-lt payload),
        ==_refl (calc payload),
      )

  -- The context with a whole frame in its buffer.
  abbrev with_frame : Context → Addresses → Bytes → Bytes → Context
  with_frame ctx a payload tail =
      record (moved (with_header ctx a (length payload) tail) 12 (body_bytes payload)) {
        payload = payload;
      }

  parse_body_frame :
      (ctx : Context) (a : Addresses) (payload tail input : Bytes)
      → parse_body
          (at_body 12)
          (with_header ctx a (length payload) tail)
          (body_bytes payload ++ input)
        ≡ record {
          state = at_read (12 + length payload + 4);
          ctx = with_frame ctx a payload tail;
          input = input;
        }
  unfolding parse_body
  parse_body_frame ctx a payload tail input =
      let n = length payload in
      let size : 12 + length (body_bytes payload) ≡ 12 + n + 4 =
        omega (arith, length-append payload (be32 (calc payload))) in
      ap (parse_moved_body (12 + n + 4)) (
        transfer_data_all (at_body 12) (with_header ctx a n tail) (body_bytes payload) input
          (12 + n + 4) size)
      ∙ moved_body (moved (with_header ctx a n tail) 12 (body_bytes payload)) (header_bytes a n)
          payload _ input refl refl refl

  body_step :
      (reparse : Reparse) (fuel : ℕ) (ctx : Context) (a : Addresses) (payload tail input : Bytes)
      → parse_many reparse
          (suc fuel)
          (at_body 12)
          (with_header ctx a (length payload) tail)
          (body_bytes payload ++ input)
        ≡ some (record {
          state = at_read (12 + length payload + 4);
          ctx = with_frame ctx a payload tail;
          input = input;
        })
  unfolding parse_one parse_value
  body_step reparse fuel ctx a [] tail input =
      round reparse fuel (at_body 12) _ _ _ _ refl (ap some (parse_body_frame ctx a [] tail input))
      ∙ ended reparse fuel _ _ input
  body_step reparse fuel ctx a (p ∷ payload) tail input =
      round reparse fuel (at_body 12) _ _ _ _ refl
        (ap some (parse_body_frame ctx a (p ∷ payload) tail input))
      ∙ ended reparse fuel _ _ input

  found :
      (reparse : Reparse) (fuel : ℕ) (ctx : Context) (noise : Bytes) (a : Addresses)
      (payload rest : Bytes)
      → All IsNoise noise
      → IsAddresses a
      → length payload < 2 ^ 16
      → length payload ≤ ctx.max_payload_length
      → (tail : Bytes) × (parse_many reparse
            (suc (suc (suc (suc fuel))))
            at_sync1
            ctx
            (noise ++ (frame_bytes a payload ++ rest))
          ≡ some (record {
            state = at_read (12 + length payload + 4);
            ctx = with_frame (moved (moved ctx 0 (sync1 ∷ [])) 1 (sync2 ∷ [])) a payload tail;
            input = rest;
          }))
  unfolding frame_bytes
  found reparse fuel ctx noise a payload rest quiet A small fits =
      let n = length payload in
      let ctx2 = moved (moved ctx 0 (sync1 ∷ [])) 1 (sync2 ∷ []) in
      let behind = drop 2 (header_bytes a n) ++ (body_bytes payload ++ rest) in
      (
        _,
        sync1_step noise reparse (suc (suc (suc fuel))) ctx (sync2 ∷ behind) quiet
            ∙ sync2_step reparse (suc (suc fuel)) (moved ctx 0 (sync1 ∷ [])) behind
            ∙ header_step reparse (suc fuel) ctx2 a n _ (body_bytes payload ++ rest) refl A small
                fits
            ∙ body_step reparse fuel ctx2 a payload _ rest,
      )

  -- A parser that waits for a frame finds the next one: of an input of bytes other than the first
  -- synchronization byte, then a frame whose payload is within the parser's maximum, then anything,
  -- it reads up to the end of the frame, leaves what is behind it, and has that frame's addresses
  -- and payload as its result.
  pub parse-frame_bytes :
      (parser : LinkParser) (noise : Bytes) (a : Addresses) (payload rest : Bytes)
      → parser.state ≡ at_sync1
      → All IsNoise noise
      → IsAddresses a
      → length payload < 2 ^ 16
      → length payload ≤ parser.context.max_payload_length
      → (next : LinkParser) × (parse parser (noise ++ (frame_bytes a payload ++ rest))
          ≡ some (next, rest))
        × (Parser.read next ≡ some (a, payload))
        × (next.context.max_payload_length ≡ parser.context.max_payload_length)
  unfolding parse Parser.read
  parse-frame_bytes parser noise a payload rest waits quiet A small fits =
      let input = noise ++ (frame_bytes a payload ++ rest) in
      let enough : length input ≡ suc (suc (suc (suc (length input - 4)))) = omega (
        arith,
        length-append noise (frame_bytes a payload ++ rest),
        length-append (frame_bytes a payload) rest,
        length-frame_bytes a payload,
      ) in
      let (tail, ran) =
        found (reparse_at 1) (length input - 4) parser.context noise a payload rest quiet A small
          fits in
      let whole =
        ap (λ (f : ℕ). parse_many (reparse_at 1) f parser.state parser.context input) enough
        ∙ ap
            (λ (s : State).
              parse_many (reparse_at 1) (suc (suc (suc (suc (length input - 4))))) s parser.context
                input)
            waits
        ∙ ran in
      rw (whole, parse) (_, refl, refl, refl)
