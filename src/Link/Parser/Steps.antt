-- ===== src/Link/Parser/Steps.antt =====
-- Every step of the parser succeeds and keeps its invariant.
use ssp21_cpp.Base.{
  ℕ, ◌+◌, ◌≤◌, ◌<◌, ◌≡◌, refl, sym, ap, ◌∙◌, Bytes, IsByte, All, All-take, All-drop, [], ◌∷◌, ◌++◌,
  some, arith, length, length-take, length-drop, take, drop, ltb, ltb-false, ◌==◌, ==_iff,
  Bool-cases, inl, inr, ◌⊎◌, ◌≢◌, ==_distinct,
}
use ssp21_cpp.Ser.{Ser4cpp, be32}
use ssp21_cpp.Wire.{ok}
use ssp21_cpp.Crc.{calc}
use ssp21_cpp.Link.{Addresses, sync1, sync2}
use ssp21_cpp.Link.Frame.{header_bytes, fields_bytes}
use ssp21_cpp.Link.Parser.{
  wait_header, State, Context, Outcome, Reparse, bad_header_crc, parse_moved_header, header_chain,
  check_header, parse_header,
}
use ssp21_cpp.Link.Parser.Header.{header_chain_total, header_found}
use ssp21_cpp.Link.Parser.Invariant.{
  IsFit, IsHeader, IsBody, IsValid, IsNext, IsMoved, transfer_data-IsMoved,
}

-- What the header state needs of the parse of a bad header's bytes.
abbrev pub Reparses : Reparse → Type 0
Reparses reparse =
    (ctx : Context) (header : Bytes)
    → IsFit ctx
    → All IsByte header
    → length header ≤ 10
    → (o : Outcome) × (reparse ctx header ≡ some o) × IsValid o.state o.ctx

module _ ⦃ser : Ser4cpp⦄ where
  check_header-IsValid :
      (reparse : Reparse) (ctx : Context) (input : Bytes) (destination source n crc : ℕ)
      (rest : Bytes)
      → Reparses reparse
      → IsFit ctx
      → take 2 ctx.buffer ≡ sync1 ∷ sync2 ∷ []
      → header_chain.read (drop 2 ctx.buffer) ≡ ok ((destination, (source, (n, crc))), rest)
      → (o : Outcome) × (check_header reparse ctx input (destination, (source, (n, crc))) ≡ some o)
        × IsValid o.state o.ctx
        × (o.input ≡ input)
  unfolding check_header
  check_header-IsValid reparse ctx input destination source n crc rest R F sync e =
      let a : Addresses = record { destination = destination; source = source } in
      let (range, small, fields, header) = header_found ctx.buffer rest a n crc F.bytes sync e in
      let head = take 12 ctx.buffer in
      let ctx2 : Context = record ctx { addresses = a; payload_length = n } in
      let ctx3 : Context = record ctx2 {
        reports = bad_header_crc (calc (take 8 ctx.buffer)) crc ∷ ctx.reports;
      } in
      let (o, ran, V) =
        R ctx3 (drop 2 head) (record { sized = F.sized; bytes = F.bytes })
          (All-drop IsByte 2 head (All-take IsByte 12 ctx.buffer F.bytes))
          (omega (arith, length-drop 2 head, length-take 12 ctx.buffer)) in
      elim (Bool-cases (calc (take 8 ctx.buffer) == crc)) [
        | inr bad ↦ rw (bad, ran) (record o { input = input }, refl, V, refl)
        | inl good ↦ elim (Bool-cases (ltb ctx.max_payload_length n)) [
          | inl long ↦
              rw (good, long)
                (
                  _,
                  refl,
                  record { fit = record { sized = F.sized; bytes = F.bytes }; phase = refl },
                  refl,
                )
          | inr fits ↦
              let within = ltb-false ctx.max_payload_length n fits in
              let agree : calc (fields_bytes a n) ≡ crc =
                ap calc (sym fields) ∙ (==_iff (calc (take 8 ctx.buffer)) crc).0 good in
              let whole : take 12 ctx.buffer ≡ header_bytes a n =
                header ∙ ap (λ (k : ℕ). fields_bytes a n ++ be32 k) (sym agree) in
              let phase : IsBody 12 ctx2 = record {
                started = omega arith;
                short = omega arith;
                within = within;
                header = whole;
                in_range = range;
              } in
              rw (good, fits)
                (
                  _,
                  refl,
                  record { fit = record { sized = F.sized; bytes = F.bytes }; phase = phase },
                  refl,
                )
        ]
      ]

  moved_header-IsNext :
      (reparse : Reparse) (n : ℕ) (ctx0 : Context) (input0 : Bytes) (num : ℕ) (ctx : Context)
      (input : Bytes)
      → (n + length input0 ≤ 10) ⊎ Reparses reparse
      → IsMoved n 12 ctx0 input0 num ctx input
      → 2 ≤ n
      → take 2 ctx.buffer ≡ sync1 ∷ sync2 ∷ []
      → (o : Outcome) × (parse_moved_header reparse (num, ctx, input) ≡ some o) × IsNext n input0 o
  unfolding parse_moved_header
  moved_header-IsNext reparse n ctx0 input0 num ctx input R M started sync =
      elim (Bool-cases (num == 12)) [
        | inr e ↦
            let other : num ≢ 12 = λ same. absurd (==_distinct num 12 e same) in
            let short : num < 12 = omega (arith, M.at_most, other) in
            rw e (
              _,
              refl,
              record {
                valid = record {
                  fit = M.fit;
                  phase = record {
                    started = omega (arith, M.at_least, started);
                    short = short;
                    sync = sync;
                  };
                };
                rest = M.rest;
                shorter = M.shorter;
                few = λ h. omega (arith, M.total, h);
              },
            )
        | inl e ↦
            let same : num ≡ 12 = (==_iff num 12).0 e in
            elim R [
              | inl small ↦ absurd (omega (arith, small, same, M.total))
              | inr R ↦
                  let room : 10 ≤ length (drop 2 ctx.buffer) =
                    omega (arith, length-drop 2 ctx.buffer, M.fit.sized) in
                  let (r, found) = header_chain_total (drop 2 ctx.buffer) room in
                  let ((destination, (source, (len, crc))), rest) = r in
                  let (o, ran, V, left) =
                    check_header-IsValid reparse ctx input destination source len crc rest R M.fit
                      sync found in
                  rw (e, found)
                    (
                      o,
                      ran,
                      record {
                        valid = V;
                        rest = rw left M.rest;
                        shorter = rw left M.shorter;
                        few = λ h. absurd (omega (arith, h, same, M.total));
                      },
                    )
            ]
      ]

  pub parse_header-IsNext :
      (reparse : Reparse) (num : ℕ) (ctx : Context) (b : ℕ) (input : Bytes)
      → (num + length (b ∷ input) ≤ 10) ⊎ Reparses reparse
      → IsFit ctx
      → IsHeader num ctx
      → All IsByte (b ∷ input)
      → (o : Outcome) × (parse_header reparse
            (record { value = wait_header; num_buffered = num })
            ctx
            (b ∷ input)
          ≡ some o)
        × IsNext num (b ∷ input) o
  unfolding parse_header
  parse_header-IsNext reparse num ctx b input R F H h =
      let state : State = record { value = wait_header; num_buffered = num } in
      let M = transfer_data-IsMoved state ctx b input 12 F h H.short (omega (arith, F.sized)) in
      moved_header-IsNext reparse num ctx (b ∷ input) _ _ _ R M H.started
        (M.kept 2 H.started ∙ H.sync)
