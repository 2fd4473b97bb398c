-- ===== src/Link/Parser/Total.antt =====
-- The parser always gives a result, keeps its invariant, and accepts whole frames only.
use ssp21_cpp.Base.{
  ℕ, zero, suc, ◌+◌, ◌≤◌, ◌≡◌, refl, ap, ◌∙◌, true, false, Bool-cases, Bytes, IsByte, All, [], ◌∷◌,
  Option, none, some, arith, length, take, inl, inr, ◌⊎◌, if◌then◌else◌,
}
use mathlib.Core.Path.{subst}
use ssp21_cpp.Ser.{Ser4cpp}
use ssp21_cpp.Link.{Addresses}
use ssp21_cpp.Link.Frame.{frame_bytes, IsAddresses}
use ssp21_cpp.Link.Parser
use ssp21_cpp.Link.Parser.{
  Value, wait_sync1, wait_sync2, wait_header, wait_body, wait_read, State, at_sync1, Context,
  Outcome, Reparse, is_wait_read, parse_value, parse_one, parse_many, reparse_at, LinkParser, parse,
  replicate, init_context,
}
use ssp21_cpp.Link.Parser.Invariant.{
  IsFit, IsPhase, IsValid, IsNext, parse_sync1-IsNext, parse_sync2-IsNext,
}
use ssp21_cpp.Link.Parser.Steps.{Reparses, parse_header-IsNext}
use ssp21_cpp.Link.Parser.Body.{parse_body-IsNext}

read_value : (value : Value) → is_wait_read value ≡ true → value ≡ wait_read
read_value wait_read e = refl
read_value wait_sync1 e = cc
read_value wait_sync2 e = cc
read_value wait_header e = cc
read_value wait_body e = cc

still :
    (num : ℕ) (input : Bytes) (o : Outcome) (reparse : Reparse)
    → IsNext num input o
    → (num + length input ≤ 10) ⊎ Reparses reparse
    → (o.state.num_buffered + length o.input ≤ 10) ⊎ Reparses reparse
still num input o reparse N (inl few) = inl (N.few few)
still num input o reparse N (inr R) = inr R

replicate_length : (n : ℕ) → length (replicate n) ≡ n
replicate_length zero = refl
replicate_length (suc n) = omega (arith, replicate_length n)

replicate_bytes : (n : ℕ) → All IsByte (replicate n)
replicate_bytes zero = tt
replicate_bytes (suc n) = (omega arith, replicate_bytes n)

-- A parser starts in order, whatever the payload size it is made for.
pub init_context-IsValid : (n : ℕ) → IsValid at_sync1 (init_context n)
unfolding init_context
init_context-IsValid n = record {
  fit = record {
    sized = omega (arith, replicate_length (16 + n));
    bytes = replicate_bytes (16 + n);
  };
  phase = refl;
}

module _ ⦃ser : Ser4cpp⦄ where
  parse_value-IsNext :
      (value : Value) (reparse : Reparse) (num : ℕ) (ctx : Context) (b : ℕ) (input : Bytes)
      → is_wait_read value ≡ false
      → (num + length (b ∷ input) ≤ 10) ⊎ Reparses reparse
      → IsFit ctx
      → IsPhase value num ctx
      → All IsByte (b ∷ input)
      → (o : Outcome) × (parse_value value reparse
            (record { value = value; num_buffered = num })
            ctx
            (b ∷ input)
          ≡ some o)
        × IsNext num (b ∷ input) o
  unfolding parse_value
  parse_value-IsNext wait_sync1 reparse num ctx b input w R F P h =
      let N = parse_sync1-IsNext ctx b input F h in
      (
        _,
        refl,
        record {
          valid = N.valid;
          rest = N.rest;
          shorter = N.shorter;
          few = λ few. N.few (omega (arith, few));
        },
      )
  parse_value-IsNext wait_sync2 reparse num ctx b input w R F P h =
      (_, refl, parse_sync2-IsNext num ctx b input F P h)
  parse_value-IsNext wait_header reparse num ctx b input w R F P h =
      parse_header-IsNext reparse num ctx b input R F P h
  parse_value-IsNext wait_body reparse num ctx b input w R F P h =
      (_, refl, parse_body-IsNext num ctx b input F P h)
  parse_value-IsNext wait_read reparse num ctx b input w R F P h = cc

  -- With as much fuel as there are bytes, the loop ends, in a state that is in order: either it has
  -- read all of the input, or it has a result.
  parse_many-IsValid :
      (reparse : Reparse) (fuel : ℕ) (state : State) (ctx : Context) (input : Bytes)
      → (state.num_buffered + length input ≤ 10) ⊎ Reparses reparse
      → IsValid state ctx
      → All IsByte input
      → length input ≤ fuel
      → (o : Outcome) × (parse_many reparse fuel state ctx input ≡ some o)
        × IsValid o.state o.ctx
        × All IsByte o.input
        × ((o.input ≡ []) ⊎ (o.state.value ≡ wait_read))
  unfolding parse_many parse_one
  parse_many-IsValid reparse fuel state ctx [] R V h le = (_, refl, V, tt, inl refl)
  parse_many-IsValid reparse zero state ctx (b ∷ input) R V h le = absurd (omega arith)
  parse_many-IsValid reparse (suc fuel) state ctx (b ∷ input) R V h le =
      elim (Bool-cases (is_wait_read state.value)) [
        | inl w ↦ rw (w, parse_many) (_, refl, V, h, inr (read_value state.value w))
        | inr w ↦
            let (o, ran, N) =
              parse_value-IsNext state.value reparse state.num_buffered ctx b input w R V.fit
                V.phase h in
            let (p, ended, W, rest, done) =
              parse_many-IsValid reparse fuel o.state o.ctx o.input
                (still state.num_buffered (b ∷ input) o reparse N R) N.valid N.rest
                (omega (arith, N.shorter, le)) in
            rw (w, parse_many, ran) (p, ended, W, rest, done)
      ]

  -- A bad header's ten bytes never hold a second header, so its parse asks for no further one.
  reparse_at-Reparses : Reparses (reparse_at 1)
  unfolding reparse_at
  reparse_at-Reparses ctx header F h few =
      let (o, ran, V, rest, done) =
        parse_many-IsValid (reparse_at 0) (length header) at_sync1 ctx header
          (inl (omega (arith, few))) (record { fit = F; phase = refl }) h (omega arith) in
      (o, ran, V)

  pub parse_total :
      (parser : LinkParser) (input : Bytes)
      → IsValid parser.state parser.context
      → All IsByte input
      → (r : LinkParser × Bytes) × (parse parser input ≡ some r)
        × IsValid r.0.state r.0.context
        × All IsByte r.1
        × ((r.1 ≡ []) ⊎ (r.0.state.value ≡ wait_read))
  unfolding parse
  parse_total parser input V h =
      let (o, ran, W, rest, done) =
        parse_many-IsValid (reparse_at 1) (length input) parser.state parser.context input
          (inr reparse_at-Reparses) V h (omega arith) in
      rw (ran, parse) ((record { state = o.state; context = o.ctx }, o.input), refl, W, rest, done)

  -- `parse` ends on any bytes, from any state that is in order, and leaves one: it has then read all
  -- of its input, or it has a result, which is a whole frame in its buffer, with the addresses and
  -- the payload that it reports, both CRCs right and the payload within the maximum.
  pub parse-IsValid :
      (parser : LinkParser) (input : Bytes)
      → IsValid parser.state parser.context
      → All IsByte input
      → (r : LinkParser × Bytes) × (parse parser input ≡ some r)
        × IsValid r.0.state r.0.context
        × ((r.1 ≡ []) ⊎ (r.0.state.value ≡ wait_read))
  parse-IsValid parser input V h =
      let (r, ran, W, rest, done) = parse_total parser input V h in (r, ran, W, done)

  -- What `read` gives, in a state that is in order, is a frame that stands in the buffer: the bytes
  -- buffered are the whole frame of those addresses and that payload, with both CRCs right, the
  -- addresses have 16 bits and the payload is within the maximum.
  pub read-frame :
      (parser : LinkParser) (a : Addresses) (payload : Bytes)
      → IsValid parser.state parser.context
      → Parser.read parser ≡ some (a, payload)
      → (take parser.state.num_buffered parser.context.buffer ≡ frame_bytes a payload)
        × IsAddresses a
        × (length payload ≤ parser.context.max_payload_length)
  unfolding Parser.read
  read-frame parser a payload V e = result parser.state.value V.phase e
    where
      result :
          (value : Value)
          → IsPhase value parser.state.num_buffered parser.context
          → if◌then◌else◌ {A = Option (Addresses × Bytes)}
              (is_wait_read value)
              (some (parser.context.addresses, parser.context.payload))
              none
            ≡ some (a, payload)
          → (take parser.state.num_buffered parser.context.buffer ≡ frame_bytes a payload)
            × IsAddresses a
            × (length payload ≤ parser.context.max_payload_length)
      result wait_read R e =
          let same_a : parser.context.addresses ≡ a = cc in
          let same_p : parser.context.payload ≡ payload = cc in
          (
            R.frame
                ∙ ap (λ (t : Addresses). frame_bytes t parser.context.payload) same_a
                ∙ ap (frame_bytes a) same_p,
            subst IsAddresses same_a R.in_range,
            subst (λ (t : Bytes). length t ≤ parser.context.max_payload_length) same_p R.within,
          )
      result wait_sync1 R e = cc
      result wait_sync2 R e = cc
      result wait_header R e = cc
      result wait_body R e = cc
