-- ===== src/Link/Parser/Reached.antt =====
-- What a parser reports after any inputs, from the time that it is made.
use ssp21_cpp.Base.{
  ℕ, ◌≤◌, ◌≡◌, refl, Bytes, IsByte, All, List, [], ◌∷◌, Option, none, some, length, take,
}
use ssp21_cpp.Ser.{Ser4cpp}
use ssp21_cpp.Link.{Addresses}
use ssp21_cpp.Link.Frame.{frame_bytes, IsAddresses}
use ssp21_cpp.Link.Parser
use ssp21_cpp.Link.Parser.{LinkParser, parse, at_sync1, init_context}
use ssp21_cpp.Link.Parser.Invariant.{IsValid}
use ssp21_cpp.Link.Parser.Total.{init_context-IsValid, parse_total, read-frame}

-- Bytes to parse, or a call of `reset`.
pub data Input : Type 0 where
  arrived : Bytes → Input
  discarded : Input

abbrev pub IsInput : Input → Type 0
IsInput (arrived bytes) = All IsByte bytes
IsInput discarded = Unit {0}

abbrev pub new_parser : ℕ → LinkParser
new_parser maximum = record { state = at_sync1; context = init_context maximum }

-- A result is a frame that stands in the buffer.
abbrev pub IsReported : LinkParser → Option (Addresses × Bytes) → Type 0
IsReported parser none = Unit {0}
IsReported parser (some (a, payload)) =
    (take parser.state.num_buffered parser.context.buffer ≡ frame_bytes a payload)
    × IsAddresses a
    × (length payload ≤ parser.context.max_payload_length)

module _ ⦃ser : Ser4cpp⦄ where
  pub feed : List Input → LinkParser → Option LinkParser
  feed [] parser = some parser
  feed (arrived bytes ∷ inputs) parser = elim (parse parser bytes) [
    | none ↦ none
    | some (next, rest) ↦ feed inputs next
  ]
  feed (discarded ∷ inputs) parser = feed inputs (Parser.reset parser)

  reported :
      (parser : LinkParser) (o : Option (Addresses × Bytes))
      → IsValid parser.state parser.context
      → Parser.read parser ≡ o
      → IsReported parser o
  reported parser none V e = tt
  reported parser (some (a, payload)) V e = read-frame parser a payload V e

  feed-IsValid :
      (inputs : List Input) (parser : LinkParser)
      → IsValid parser.state parser.context
      → All IsInput inputs
      → (last : LinkParser) × (feed inputs parser ≡ some last) × IsValid last.state last.context
  unfolding feed Parser.reset
  feed-IsValid [] parser V h = (parser, refl, V)
  feed-IsValid (arrived bytes ∷ inputs) parser V (b, h) =
      let ((next, rest), ran, W, left, done) = parse_total parser bytes V b in
      rw (ran, feed) (feed-IsValid inputs next W h)
  feed-IsValid (discarded ∷ inputs) parser V (b, h) =
      feed-IsValid inputs (Parser.reset parser) (record { fit = V.fit; phase = refl }) h

  -- A parser reports whole frames only. From the time that it is made, for any maximum, after any
  -- sequence of byte strings to parse and of resets, each of which ends, a result that `read` gives
  -- is a frame that stands in the buffer: the bytes buffered are the frame of those addresses and
  -- that payload, with both CRCs right, the addresses have 16 bits and the payload is within the
  -- parser's maximum.
  pub feed-frame :
      (inputs : List Input) (maximum : ℕ)
      → All IsInput inputs
      → (last : LinkParser) × (feed inputs (new_parser maximum) ≡ some last)
        × IsReported last (Parser.read last)
  feed-frame inputs maximum h =
      let (last, ran, V) =
        feed-IsValid inputs (new_parser maximum) (init_context-IsValid maximum) h in
      (last, ran, reported last (Parser.read last) V refl)
