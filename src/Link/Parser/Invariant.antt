-- ===== src/Link/Parser/Invariant.antt =====
-- The invariant of the parser's states, and the steps of the synchronization states and of
-- `transfer_data`.
use ssp21_cpp.Base.{
  ℕ, ◌+◌, ◌-◌, ◌≤◌, ◌<◌, ◌≡◌, refl, ap, ◌∙◌, Bytes, IsByte, All, All-take, All-drop, [], ◌∷◌, ◌++◌,
  arith, length, length-take, length-drop, take, min, ◌==◌, ==_iff, Bool-cases, inl, inr,
}
use ssp21_cpp.Link.{sync1, sync2}
use ssp21_cpp.Link.Frame.{header_bytes, frame_bytes, IsAddresses}
use ssp21_cpp.Link.Parser.{
  Value, wait_sync1, wait_sync2, wait_header, wait_body, wait_read, State, Context, Outcome,
  overwrite, transfer_data, parse_sync1, parse_sync2,
}
use ssp21_cpp.Link.Parser.Buffer.{
  take-overwrite, take-overwrite_before, length-overwrite, overwrite-IsByte,
}

-- The buffer has room for the longest frame.
pub record IsFit (ctx : Context) : Type 0 where
  pub sized : 16 + ctx.max_payload_length ≤ length ctx.buffer
  pub bytes : All IsByte ctx.buffer

pub record IsHeader (num : ℕ) (ctx : Context) : Type 0 where
  pub started : 2 ≤ num
  pub short : num < 12
  pub sync : take 2 ctx.buffer ≡ sync1 ∷ sync2 ∷ []

pub record IsBody (num : ℕ) (ctx : Context) : Type 0 where
  pub started : 12 ≤ num
  pub short : num < 16 + ctx.payload_length
  pub within : ctx.payload_length ≤ ctx.max_payload_length
  pub header : take 12 ctx.buffer ≡ header_bytes ctx.addresses ctx.payload_length
  pub in_range : IsAddresses ctx.addresses

pub record IsResult (num : ℕ) (ctx : Context) : Type 0 where
  pub long : 12 ≤ num
  pub frame : take num ctx.buffer ≡ frame_bytes ctx.addresses ctx.payload
  pub within : length ctx.payload ≤ ctx.max_payload_length
  pub in_range : IsAddresses ctx.addresses

-- What has been buffered in each state.
abbrev pub IsPhase : Value → ℕ → Context → Type 0
IsPhase wait_sync1 num ctx = num ≡ 0
IsPhase wait_sync2 num ctx = (num ≡ 1) × (take 1 ctx.buffer ≡ sync1 ∷ [])
IsPhase wait_header num ctx = IsHeader num ctx
IsPhase wait_body num ctx = IsBody num ctx
IsPhase wait_read num ctx = IsResult num ctx

pub record IsValid (state : State) (ctx : Context) : Type 0 where
  pub fit : IsFit ctx
  pub phase : IsPhase state.value state.num_buffered ctx

-- What a step leaves that has read of `input`: its state and its input are in order, and if the
-- bytes buffered and to come were at most ten, they still are.
pub record IsNext (num : ℕ) (input : Bytes) (o : Outcome) : Type 0 where
  pub valid : IsValid o.state o.ctx
  pub rest : All IsByte o.input
  pub shorter : length o.input < length input
  pub few : num + length input ≤ 10 → o.state.num_buffered + length o.input ≤ 10

abbrev pub moved : Context → ℕ → Bytes → Context
moved ctx n bytes = record ctx { buffer = overwrite ctx.buffer n bytes }

pub moved-IsFit :
    (ctx : Context) (n : ℕ) (xs : Bytes)
    → IsFit ctx
    → All IsByte xs
    → n + length xs ≤ length ctx.buffer
    → IsFit (moved ctx n xs)
moved-IsFit ctx n xs F h room = record {
  sized = omega (arith, length-overwrite ctx.buffer n xs room, F.sized);
  bytes = overwrite-IsByte ctx.buffer n xs F.bytes h;
}

record IsScan (input : Bytes) (o : Outcome) : Type 0 where
  valid : IsValid o.state o.ctx
  rest : All IsByte o.input
  shorter : length o.input ≤ length input - 1
  all : o.state.num_buffered + length o.input ≤ length input

parse_sync1-IsScan :
    (ctx : Context) (input : Bytes)
    → IsFit ctx
    → All IsByte input
    → IsScan input (parse_sync1 ctx input)
unfolding parse_sync1
parse_sync1-IsScan ctx [] F h = record {
  valid = record { fit = F; phase = refl };
  rest = tt;
  shorter = omega arith;
  all = omega arith;
}
parse_sync1-IsScan ctx (b ∷ input) F (hb, hs) =
    let more = parse_sync1-IsScan ctx input F hs in
    elim (Bool-cases (b == sync1)) [
      | inl e ↦
          let same = (==_iff b sync1).0 e in
          rw e record {
            valid = record {
              fit = moved-IsFit ctx 0 (b ∷ []) F (hb, tt) (omega (arith, F.sized));
              phase = (refl, ap (λ (k : ℕ). k ∷ []) same);
            };
            rest = hs;
            shorter = omega arith;
            all = omega arith;
          }
      | inr e ↦ rw e record {
        valid = more.valid;
        rest = more.rest;
        shorter = omega (arith, more.shorter);
        all = omega (arith, more.all);
      }
    ]

pub parse_sync1-IsNext :
    (ctx : Context) (b : ℕ) (input : Bytes)
    → IsFit ctx
    → All IsByte (b ∷ input)
    → IsNext 0 (b ∷ input) (parse_sync1 ctx (b ∷ input))
parse_sync1-IsNext ctx b input F h =
    let scan = parse_sync1-IsScan ctx (b ∷ input) F h in
    record {
      valid = scan.valid;
      rest = scan.rest;
      shorter = omega (arith, scan.shorter);
      few = λ small. omega (arith, scan.all, small);
    }

pub parse_sync2-IsNext :
    (num : ℕ) (ctx : Context) (b : ℕ) (input : Bytes)
    → IsFit ctx
    → IsPhase wait_sync2 num ctx
    → All IsByte (b ∷ input)
    → IsNext num
        (b ∷ input)
        (parse_sync2 (record { value = wait_sync2; num_buffered = num }) ctx (b ∷ input))
unfolding parse_sync2
parse_sync2-IsNext num ctx b input F (one, seen) (hb, hs) = elim (Bool-cases (b == sync2)) [
  | inl e ↦
      let same = (==_iff b sync2).0 e in
      let room : 1 ≤ length ctx.buffer = omega (arith, F.sized) in
      let sync : take 2 (overwrite ctx.buffer 1 (b ∷ [])) ≡ sync1 ∷ sync2 ∷ [] =
        take-overwrite ctx.buffer 1 (b ∷ []) room
        ∙ ap (λ (xs : Bytes). xs ++ (b ∷ [])) seen
        ∙ ap (λ (k : ℕ). sync1 ∷ k ∷ []) same in
      rw e record {
        valid = record {
          fit = moved-IsFit ctx 1 (b ∷ []) F (hb, tt) (omega (arith, F.sized));
          phase = record { started = omega arith; short = omega arith; sync = sync };
        };
        rest = hs;
        shorter = omega arith;
        few = λ small. omega (arith, one, small);
      }
  | inr e ↦ rw e record {
    valid = record { fit = F; phase = refl };
    rest = hs;
    shorter = omega arith;
    few = λ small. omega (arith, small);
  }
]

-- What `transfer_data` has moved: as many bytes as there are, up to the maximum.
pub record IsMoved (n cap : ℕ) (ctx : Context) (input : Bytes) (num : ℕ) (ctx' : Context)
    (input' : Bytes) : Type 0 where
  pub fit : IsFit ctx'
  pub rest : All IsByte input'
  pub shorter : length input' < length input
  pub total : num + length input' ≡ n + length input
  pub at_most : num ≤ cap
  pub at_least : n ≤ num
  pub kept : (m : ℕ) → m ≤ n → take m ctx'.buffer ≡ take m ctx.buffer

pub transfer_data-IsMoved :
    (state : State) (ctx : Context) (b : ℕ) (input : Bytes) (cap : ℕ)
    → IsFit ctx
    → All IsByte (b ∷ input)
    → state.num_buffered < cap
    → cap ≤ length ctx.buffer
    → IsMoved state.num_buffered cap ctx
        (b ∷ input)
        (transfer_data state ctx (b ∷ input) cap).0
        (transfer_data state ctx (b ∷ input) cap).1
        (transfer_data state ctx (b ∷ input) cap).2
unfolding transfer_data
transfer_data-IsMoved state ctx b input cap F h below room =
    let n = state.num_buffered in
    let k = min (cap - n) (length (b ∷ input)) in
    let len_take = length-take k (b ∷ input) in
    let len_drop = length-drop k (b ∷ input) in
    record {
      fit =
          moved-IsFit ctx n (take k (b ∷ input)) F (All-take IsByte k (b ∷ input) h)
            (omega (arith, len_take, below, room));
      rest = All-drop IsByte k (b ∷ input) h;
      shorter = omega (arith, len_drop, below);
      total = omega (arith, len_drop, below);
      at_most = omega (arith, below);
      at_least = omega arith;
      kept = λ m le.
          take-overwrite_before ctx.buffer n (take k (b ∷ input)) m le (omega (arith, below, room));
    }
