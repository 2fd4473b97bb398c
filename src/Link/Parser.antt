-- ===== src/Link/Parser.antt =====
-- cpp/libs/ssp21/src/link/LinkParser.cpp. The views into the parser's buffer are the bytes that
-- they show. A frame whose header fails its CRC is parsed once more from its third byte on: that
-- view starts behind the two bytes that the synchronization states write, and is copied out before
-- it is overwritten, so that it is read as it was.
pub mod Buffer
pub mod Header
pub mod Invariant
pub mod Steps
pub mod Body
pub mod Total
pub mod Reached
pub mod Complete
use ssp21_cpp.Base.{
  ℕ, zero, suc, ◌+◌, ◌-◌, Bool, true, false, Bytes, List, [], ◌∷◌, ◌++◌, Option, none, some, length,
  take, drop, min, ltb, ◌==◌, not, if◌then◌else◌,
}
use ssp21_cpp.Ser.{Ser4cpp}
use ssp21_cpp.Wire.{Field, ok, err, ◌&◌}
use ssp21_cpp.Wire.Fields.{u16_field, u32_field}
use ssp21_cpp.Crc.{calc}
use ssp21_cpp.Link.{
  Addresses, sync1, sync2, max_config_payload_size, crc_size, header_fields_size, header_total_size,
  min_frame_size,
}

pub data Value : Type 0 where
  wait_sync1 wait_sync2 wait_header wait_body wait_read : Value

pub record State : Type 0 where
  pub value : Value
  pub num_buffered : ℕ

abbrev pub at_sync1 : State
at_sync1 = record { value = wait_sync1; num_buffered = 0 }

abbrev pub at_sync2 : State
at_sync2 = record { value = wait_sync2; num_buffered = 1 }

abbrev pub at_header : ℕ → State
at_header num = record { value = wait_header; num_buffered = num }

abbrev pub at_body : ℕ → State
at_body num = record { value = wait_body; num_buffered = num }

abbrev pub at_read : ℕ → State
at_read num = record { value = wait_read; num_buffered = num }

abbrev pub is_wait_read : Value → Bool
is_wait_read wait_read = true
is_wait_read _ = false

-- The calls of `IReporter`.
pub data Report : Type 0 where
  bad_header_crc bad_body_crc bad_body_length : ℕ → ℕ → Report

-- `result` is spread over `addresses` and `payload`.
pub record Context : Type 0 where
  pub max_payload_length : ℕ
  pub reports : List Report
  pub buffer : Bytes
  pub addresses : Addresses
  pub payload : Bytes
  pub payload_length : ℕ

abbrev pub replicate : ℕ → List ℕ
replicate zero = []
replicate (suc n) = 0 ∷ replicate n

unfoldable pub init_context : ℕ → Context
init_context max_payload_length = record {
  max_payload_length = min max_payload_length max_config_payload_size;
  reports = [];
  buffer = replicate (min_frame_size + max_payload_length);
  addresses = record { destination = 0; source = 0 };
  payload = [];
  payload_length = 0;
}

-- The buffer with `bytes` copied in behind the first `n`.
abbrev pub overwrite : Bytes → ℕ → Bytes → Bytes
overwrite buffer n bytes = take n buffer ++ (bytes ++ drop (n + length bytes) buffer)

-- What a parsing step leaves: the new state, the context, and the input not read.
pub record Outcome : Type 0 where
  pub state : State
  pub ctx : Context
  pub input : Bytes

-- `input.take(num_to_copy)` is moved behind the bytes that are buffered.
pub transfer_data : State → Context → Bytes → ℕ → ℕ × Context × Bytes
transfer_data state ctx input max_bytes_to_buffer =
    let remaining = max_bytes_to_buffer - state.num_buffered in
    let num_to_copy = min remaining (length input) in
    (
      num_to_copy + state.num_buffered,
      record ctx { buffer = overwrite ctx.buffer state.num_buffered (take num_to_copy input) },
      drop num_to_copy input,
    )

-- One byte at a time, up to the first synchronization character.
pub parse_sync1 : Context → Bytes → Outcome
parse_sync1 ctx [] = record { state = at_sync1; ctx = ctx; input = [] }
parse_sync1 ctx (value ∷ input) =
    let rest = parse_sync1 ctx input in
    if value == sync1
    then (record {
      state = at_sync2;
      ctx = record ctx { buffer = overwrite ctx.buffer 0 (value ∷ []) };
      input = input;
    })
    else rest

-- `parse_one` is never called on an empty input.
pub parse_sync2 : State → Context → Bytes → Outcome
parse_sync2 state ctx [] = record { state = state; ctx = ctx; input = [] }
parse_sync2 state ctx (value ∷ input) =
    if value == sync2
    then (record {
      state = at_header 2;
      ctx = record ctx { buffer = overwrite ctx.buffer 1 (value ∷ []) };
      input = input;
    })
    else record { state = at_sync1; ctx = ctx; input = input }

-- `parse_many` on the bytes of a bad header; `none` if it is nested too deep.
abbrev pub Reparse : Type 0
Reparse = Context → Bytes → Option Outcome

pub record LinkParser : Type 0 where
  pub state : State
  pub context : Context

unfoldable pub reset : LinkParser → LinkParser
reset parser = record parser { state = at_sync1 }

abbrev pub has_result : LinkParser → Bool
has_result parser = is_wait_read parser.state.value

-- `read` stores the result and returns true in `wait_read` alone.
unfoldable pub read : LinkParser → Option (Addresses × Bytes)
read parser =
    if has_result parser then some (parser.context.addresses, parser.context.payload) else none

module _ ⦃ser : Ser4cpp⦄ where
  -- `BigEndian::read` on several values reads one after the other, as a chain of fields does.
  abbrev pub header_chain : Field (ℕ × (ℕ × (ℕ × ℕ)))
  header_chain = u16_field & (u16_field & (u16_field & u32_field))

  -- The header that is complete in the buffer. Its fields are stored before they are checked.
  check_header : Reparse → Context → Bytes → ℕ × (ℕ × (ℕ × ℕ)) → Option Outcome
  check_header reparse ctx input (destination, (source, (payload_length, actual_crc))) =
      let addresses : Addresses = record { destination = destination; source = source } in
      let ctx' = record ctx { addresses = addresses; payload_length = payload_length } in
      let expected_crc = calc (take header_fields_size ctx.buffer) in
      let header = drop 2 (take header_total_size ctx.buffer) in
      let bad_crc = bad_header_crc expected_crc actual_crc in
      let bad_length = bad_body_length ctx.max_payload_length payload_length in
      if not (expected_crc == actual_crc)
      then (elim (reparse (record ctx' { reports = bad_crc ∷ ctx.reports }) header) [
        | none ↦ none
        | some o ↦ some (record o { input = input })
      ])
      else if ltb ctx.max_payload_length payload_length
      then some (record {
        state = at_sync1;
        ctx = record ctx' { reports = bad_length ∷ ctx.reports };
        input = input;
      })
      else some (record { state = at_body header_total_size; ctx = ctx'; input = input })

  -- `parse_header` behind `transfer_data`. A buffer that is too short for a header fails the read;
  -- it has `min_frame_size` bytes at least.
  parse_moved_header : Reparse → ℕ × Context × Bytes → Option Outcome
  parse_moved_header reparse (num, ctx, input) =
      if not (num == header_total_size)
      then some (record { state = at_header num; ctx = ctx; input = input })
      else (elim (header_chain.read (drop 2 ctx.buffer)) [
        | err e ↦ none
        | ok (fields, rest) ↦ check_header reparse ctx input fields
      ])

  pub parse_header : Reparse → State → Context → Bytes → Option Outcome
  unfolding parse_moved_header
  parse_header reparse state ctx input =
      parse_moved_header reparse (transfer_data state ctx input header_total_size)

  -- `actual_crc` is 0 where it cannot be read.
  read_crc : Bytes → ℕ
  read_crc crcb_start = elim (ser.read_u32 crcb_start) [ none ↦ 0 | some r ↦ r.0 ]

  -- `parse_body` behind `transfer_data`.
  parse_moved_body : ℕ → ℕ × Context × Bytes → Outcome
  parse_moved_body total_frame_size (num, ctx, input) =
      let payload = take ctx.payload_length (drop header_total_size ctx.buffer) in
      let expected_crc = calc payload in
      let actual_crc = read_crc (drop (header_total_size + ctx.payload_length) ctx.buffer) in
      let done = record ctx { payload = payload } in
      let bad = bad_body_crc expected_crc actual_crc in
      if not (num == total_frame_size)
      then record { state = at_body num; ctx = ctx; input = input }
      else if not (expected_crc == actual_crc)
      then record {
        state = at_sync1;
        ctx = record done { reports = bad ∷ ctx.reports };
        input = input;
      }
      else record { state = at_read num; ctx = done; input = input }

  pub parse_body : State → Context → Bytes → Outcome
  unfolding parse_moved_body
  parse_body state ctx input =
      let total_frame_size = header_total_size + ctx.payload_length + crc_size in
      parse_moved_body total_frame_size (transfer_data state ctx input total_frame_size)

  parse_value : Value → Reparse → State → Context → Bytes → Option Outcome
  parse_value wait_sync1 reparse state ctx input = some (parse_sync1 ctx input)
  parse_value wait_sync2 reparse state ctx input = some (parse_sync2 state ctx input)
  parse_value wait_header reparse state ctx input = parse_header reparse state ctx input
  parse_value wait_body reparse state ctx input = some (parse_body state ctx input)
  parse_value wait_read reparse state ctx input =
      some (record { state = state; ctx = ctx; input = input })

  pub parse_one : Reparse → State → Context → Bytes → Option Outcome
  unfolding parse_value
  parse_one reparse state ctx input = parse_value state.value reparse state ctx input

  -- The loop, with `fuel` rounds; a round reads a byte at least, so `length input` are enough.
  pub parse_many : Reparse → ℕ → State → Context → Bytes → Option Outcome
  parse_many reparse fuel state ctx [] = some (record { state = state; ctx = ctx; input = [] })
  parse_many reparse zero state ctx (b ∷ input) =
      if is_wait_read state.value
      then some (record { state = state; ctx = ctx; input = b ∷ input })
      else none
  parse_many reparse (suc fuel) state ctx (b ∷ input) = elim (is_wait_read state.value) [
    | true ↦ some (record { state = state; ctx = ctx; input = b ∷ input })
    | false ↦ elim (parse_one reparse state ctx (b ∷ input)) [
      | none ↦ none
      | some o ↦ parse_many reparse fuel o.state o.ctx o.input
    ]
  ]

  -- A bad header has too few bytes to hold a second whole header, so one level is enough.
  pub reparse_at : ℕ → Reparse
  unfolding parse_many
  reparse_at zero ctx header = none
  reparse_at (suc depth) ctx header =
      parse_many (reparse_at depth) (length header) at_sync1 ctx header

  pub parse : LinkParser → Bytes → Option (LinkParser × Bytes)
  unfolding parse_many reparse_at
  parse parser input =
      elim (parse_many (reparse_at 1) (length input) parser.state parser.context input) [
        | none ↦ none
        | some o ↦ some (record { state = o.state; context = o.ctx }, o.input)
      ]
