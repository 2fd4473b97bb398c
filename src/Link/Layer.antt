-- ===== src/Link/Layer.antt =====
-- cpp/libs/ssp21/src/link/LinkLayer.cpp, with the flags of its bases ILowerLayer.h and IUpperLayer.h.
-- What the lower layer's `start_rx_from_upper` gives, call after call, is a list of chunks, which
-- gives an empty one once it is used up. The calls of the upper layer are the last thing that each
-- operation does, and are listed.
pub mod Reading
pub mod Delivery
pub mod Sequence
use ssp21_cpp.Base.{
  ℕ, zero, suc, Bool, true, false, not, Bytes, List, [], ◌∷◌, Option, none, some, ◌==◌,
  if◌then◌else◌,
}
use ssp21_cpp.Ser.{Ser4cpp}
use ssp21_cpp.Link.{Addresses, max_config_payload_size}
use ssp21_cpp.Link.Parser
use ssp21_cpp.Link.Parser.{LinkParser, parse, has_result, at_sync1, init_context}

-- The calls of the upper layer.
pub data Call : Type 0 where
  on_lower_open on_lower_close on_lower_tx_ready on_lower_rx_ready : Call

pub record LinkLayer : Type 0 where
  pub local_addr : ℕ
  pub remote_addr : ℕ
  pub remainder : Bytes
  pub parser : LinkParser
  pub upper_is_processing_rx_data : Bool
  pub is_open_flag : Bool

unfoldable pub make : ℕ → ℕ → LinkLayer
make local_addr remote_addr = record {
  local_addr = local_addr;
  remote_addr = remote_addr;
  remainder = [];
  parser = record { state = at_sync1; context = init_context max_config_payload_size };
  upper_is_processing_rx_data = false;
  is_open_flag = false;
}

abbrev pub reset_parser : LinkLayer → LinkLayer
reset_parser layer = record layer { parser = Parser.reset layer.parser }

abbrev is_empty : Bytes → Bool
is_empty [] = true
is_empty (b ∷ bytes) = false

-- The chunk that the lower layer gives next, and those behind it.
abbrev pub next_chunk : List Bytes → Bytes × List Bytes
next_chunk [] = ([], [])
next_chunk (chunk ∷ chunks) = (chunk, chunks)

-- A state of the reading: the layer, and what the lower layer has.
abbrev pub Reading : Type 0
Reading = LinkLayer × List Bytes

abbrev parsed : LinkLayer → LinkParser × Bytes → LinkLayer
parsed layer (parser, remainder) = record layer { parser = parser; remainder = remainder }

-- The payload of a frame for this layer.
abbrev pub addressed : LinkLayer → Option (Addresses × Bytes) → Bytes
addressed layer none = []
addressed layer (some (addresses, payload)) =
    if addresses.destination == layer.local_addr then payload else []

abbrev discard_rx_data : LinkLayer → LinkLayer
discard_rx_data layer = reset_parser layer

abbrev pub begin_rx : LinkLayer → LinkLayer
begin_rx layer =
    if layer.upper_is_processing_rx_data
    then record (discard_rx_data layer) { upper_is_processing_rx_data = false }
    else layer

abbrev pub end_rx : Bytes × LinkLayer × List Bytes → Bytes × LinkLayer × List Bytes
end_rx (ret, layer, chunks) = elim ret [
  | [] ↦ ([], layer, chunks)
  | b ∷ bytes ↦ (b ∷ bytes, record layer { upper_is_processing_rx_data = true }, chunks)
]

abbrev notify : Bool × LinkLayer × List Bytes → List Call × LinkLayer × List Bytes
notify (found, layer, chunks) = (if found then on_lower_rx_ready ∷ [] else [], layer, chunks)

module _ ⦃ser : Ser4cpp⦄ where
  -- `true` is to go on. `none` is a parser that nests too deep.
  pub read_frame_one_iteration : Reading → Option (Bool × LinkLayer × List Bytes)
  read_frame_one_iteration (layer, chunks) = elim layer.remainder [
    | [] ↦
        let (chunk, rest) = next_chunk chunks in
        some (not (is_empty chunk), record layer { remainder = chunk }, rest)
    | b ∷ remainder ↦ elim (parse layer.parser (b ∷ remainder)) [
      | none ↦ none
      | some r ↦ some (not (has_result r.0), parsed layer r, chunks)
    ]
  ]

  -- The loop, with `fuel` rounds; `none` where they are not enough.
  pub read_frames : ℕ → Reading → Option Reading
  unfolding read_frame_one_iteration
  read_frames zero r = none
  read_frames (suc fuel) r = elim (read_frame_one_iteration r) [
    | none ↦ none
    | some (go_on, layer, chunks) ↦ elim go_on [
      | true ↦ read_frames fuel (layer, chunks)
      | false ↦ some (layer, chunks)
    ]
  ]

  pub get_frame : ℕ → Reading → Option (Bool × LinkLayer × List Bytes)
  unfolding read_frames
  get_frame fuel (layer, chunks) = elim (has_result layer.parser) [
    | true ↦ some (true, layer, chunks)
    | false ↦ elim (read_frames fuel (layer, chunks)) [
      | none ↦ none
      | some r ↦ some (has_result r.0.parser, r.0, r.1)
    ]
  ]

  pub start_rx_from_upper_impl : ℕ → Reading → Option (Bytes × LinkLayer × List Bytes)
  unfolding get_frame
  start_rx_from_upper_impl fuel r = elim (get_frame fuel r) [
    | none ↦ none
    | some (found, layer, chunks) ↦
        some (if found then addressed layer (Parser.read layer.parser) else [], layer, chunks)
  ]

  -- `ILowerLayer::start_rx_from_upper`
  pub start_rx_from_upper : ℕ → Reading → Option (Bytes × LinkLayer × List Bytes)
  unfolding start_rx_from_upper_impl
  start_rx_from_upper fuel (layer, chunks) =
      elim (start_rx_from_upper_impl fuel (begin_rx layer, chunks)) [
        | none ↦ none
        | some r ↦ some (end_rx r)
      ]

  -- `IUpperLayer::on_lower_rx_ready`, over `on_lower_rx_ready_impl`.
  unfoldable pub lower_rx_ready : ℕ → Reading → Option (List Call × LinkLayer × List Bytes)
  unfolding get_frame
  lower_rx_ready fuel (layer, chunks) = elim layer.is_open_flag [
    | false ↦ some ([], layer, chunks)
    | true ↦ elim (get_frame fuel (layer, chunks)) [ none ↦ none | some r ↦ some (notify r) ]
  ]

-- `on_lower_open`, `on_lower_close` and `on_lower_tx_ready`, over their `_impl`.
unfoldable pub lower_open : LinkLayer → List Call × LinkLayer
lower_open layer =
    if layer.is_open_flag
    then ([], layer)
    else (on_lower_open ∷ [], record layer { is_open_flag = true })

unfoldable pub lower_close : LinkLayer → List Call × LinkLayer
lower_close layer =
    if layer.is_open_flag
    then (on_lower_close ∷ [], record (reset_parser layer) { is_open_flag = false })
    else ([], layer)

unfoldable pub lower_tx_ready : LinkLayer → List Call
lower_tx_ready layer = if layer.is_open_flag then on_lower_tx_ready ∷ [] else []
