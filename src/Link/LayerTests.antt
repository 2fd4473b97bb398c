-- ===== src/Link/LayerTests.antt =====
-- The frame writer and the link layer at work on concrete bytes.
use ssp21_cpp.Base.{
  ℕ, ◌-◌, ◌≤◌, ◌<◌, ◌≡◌, refl, true, false, Bytes, IsByte, All, List, [], ◌∷◌, ◌++◌, some, arith,
  length, take,
}
use ssp21_cpp.Ser.BigEndian.{big_endian}
use ssp21_cpp.Wire.{ok, insufficient_space}
use ssp21_cpp.Session.Transmit.{IWritable}
use ssp21_cpp.Crc.{calc}
use ssp21_cpp.Link.{Addresses}
use ssp21_cpp.Link.Frame.{frame_bytes, IsAddresses}
use ssp21_cpp.Link.Parser
use ssp21_cpp.Link.Parser.{LinkParser, at_sync1, init_context, parse, replicate, at_read}
use ssp21_cpp.Link.Writer.{LinkFrameWriter, write_impl, error}
use ssp21_cpp.Link.Writer.Frames.{IsWriter, write_impl-frame_bytes}
use ssp21_cpp.Link.Layer.{LinkLayer, make, start_rx_from_upper}
use ssp21_cpp.Link.Layer.Reading.{IsLayer, make-IsLayer}
use ssp21_cpp.Link.Parser.Complete.{IsNoise, parse-frame_bytes}
use ssp21_cpp.Link.Layer.Sequence.{
  Arriving, IsArriving, Batch, chunks_of, IsWaiting, receive_many, received_in_order,
}
use ssp21_cpp.Link.Layer.Delivery.{start_rx_from_upper-frame_bytes, start_rx_from_upper_foreign}

abbrev addresses : Addresses
addresses = record { destination = 1; source = 10 }

addresses_fit : IsAddresses addresses
addresses_fit = record { destination_u16 = omega arith; source_u16 = omega arith }

abbrev user_data : Bytes
user_data = 3 ∷ 5 ∷ 7 ∷ []

-- A payload that writes its bytes where there is room for them.
abbrev payload : IWritable
payload w = (
  record { err = ok; written = user_data },
  record { space = w.space - 3; written = w.written ++ user_data },
)

abbrev writer : LinkFrameWriter
writer = record { addr = addresses; max_payload_size = 4; frame_buffer = 9 ∷ replicate 19 }

write_impl-frame_bytes_example :
    (3 ≤ 4
      → (write_impl writer payload).0
        ≡ record { err = ok; written = user_data; frame = frame_bytes addresses user_data })
    × (4 < 3 → (write_impl writer payload).0 ≡ error insufficient_space)
    × IsWriter (write_impl writer payload).1
write_impl-frame_bytes_example =
    write_impl-frame_bytes writer payload user_data
      (record { sized = refl; max_u16 = omega arith; addresses = addresses_fit }) (omega arith) refl

abbrev waiting_parser : LinkParser
waiting_parser = record { state = at_sync1; context = init_context 20 }

parse-frame_bytes_example :
    (next : LinkParser) × (parse waiting_parser
        ((1 ∷ 2 ∷ []) ++ (frame_bytes addresses user_data ++ (7 ∷ [])))
      ≡ some (next, 7 ∷ []))
    × (Parser.read next ≡ some (addresses, user_data))
    × (next.context.max_payload_length ≡ 20)
unfolding init_context
parse-frame_bytes_example =
    parse-frame_bytes waiting_parser (1 ∷ 2 ∷ []) addresses user_data (7 ∷ []) refl
      (λ same. absurd (omega (arith, same)), (λ same. absurd (omega (arith, same)), tt))
      addresses_fit (omega arith) (omega arith)

abbrev frame : Bytes
frame = frame_bytes addresses user_data

frame_IsBytes : All IsByte frame
unfolding frame_bytes calc
frame_IsBytes = (
  omega arith,
  (
    omega arith,
    (
      omega arith,
      (
        omega arith,
        (
          omega arith,
          (
            omega arith,
            (
              omega arith,
              (
                omega arith,
                (
                  omega arith,
                  (
                    omega arith,
                    (
                      omega arith,
                      (
                        omega arith,
                        (
                          omega arith,
                          (
                            omega arith,
                            (
                              omega arith,
                              (omega arith, (omega arith, (omega arith, (omega arith, tt)))),
                            ),
                          ),
                        ),
                      ),
                    ),
                  ),
                ),
              ),
            ),
          ),
        ),
      ),
    ),
  ),
)

abbrev layer : LinkLayer
layer = make 1 10

start_rx_from_upper-frame_bytes_example :
    (r : Bytes × LinkLayer × List Bytes) × (start_rx_from_upper 4 (layer, frame ∷ []) ≡ some r)
    × IsLayer r.1
    × ((b : ℕ) (bytes : Bytes)
        → r.0 ≡ b ∷ bytes
        → (a : Addresses) × (take r.1.parser.state.num_buffered r.1.parser.context.buffer
            ≡ frame_bytes a (b ∷ bytes))
          × (a.destination ≡ layer.local_addr)
          × (length (b ∷ bytes) ≤ r.1.parser.context.max_payload_length))
start_rx_from_upper-frame_bytes_example =
    start_rx_from_upper-frame_bytes layer (frame ∷ []) 4 (make-IsLayer 1 10) (frame_IsBytes, tt)
      (omega arith)

-- A layer whose parser has found a frame for address 1.
abbrev blocked_layer : LinkLayer
blocked_layer = record {
  local_addr = 2;
  remote_addr = 10;
  remainder = [];
  parser = record {
    state = at_read 19;
    context = record {
      max_payload_length = 20;
      reports = [];
      buffer = frame;
      addresses = addresses;
      payload = user_data;
      payload_length = 3;
    };
  };
  upper_is_processing_rx_data = false;
  is_open_flag = true;
}

blocked_read : Parser.read blocked_layer.parser ≡ some (addresses, user_data)
unfolding Parser.read
blocked_read = refl

start_rx_from_upper_foreign_example :
    start_rx_from_upper 4 (blocked_layer, frame ∷ []) ≡ some ([], blocked_layer, frame ∷ [])
start_rx_from_upper_foreign_example =
    start_rx_from_upper_foreign blocked_layer (frame ∷ []) 4 addresses user_data blocked_read
      (λ same. absurd (omega (arith, same))) refl

-- Two frames in one chunk, with noise between them, and one more behind them.
abbrev arriving : Bytes → Bytes → Arriving
arriving noise bytes = record { noise = noise; addresses = addresses; payload = bytes }

arriving-IsArriving :
    (noise bytes : Bytes) (b : ℕ)
    → All IsNoise noise
    → length (b ∷ bytes) ≤ 100
    → IsArriving 1 4092 (arriving noise (b ∷ bytes))
arriving-IsArriving noise bytes b quiet short = record {
  quiet = quiet;
  addresses = addresses_fit;
  mine = refl;
  some_payload = λ e. cc;
  small = omega (arith, short);
  fits = omega (arith, short);
}

abbrev batches : List Batch
batches =
    (arriving [] (3 ∷ 5 ∷ []), arriving (9 ∷ []) (4 ∷ []) ∷ [])
    ∷ (arriving (1 ∷ 2 ∷ []) (6 ∷ []), [])
    ∷ []

layer-IsWaiting : IsWaiting 1 4092 [] layer
unfolding make init_context
layer-IsWaiting = record { waits = refl; remainder = refl; local = refl; room = refl }

received_in_order_example :
    (after : LinkLayer) × (receive_many 3 2 (layer, chunks_of batches)
      ≡ some ((3 ∷ 5 ∷ []) ∷ (4 ∷ []) ∷ (6 ∷ []) ∷ [], (after, [])))
    × IsWaiting 1 4092 [] after
received_in_order_example = received_in_order 0 1 4092 batches [] layer layer-IsWaiting (
  arriving-IsArriving [] (5 ∷ []) 3 tt (omega arith),
  (
    arriving-IsArriving (9 ∷ []) [] 4 (λ same. absurd (omega (arith, same)), tt) (omega arith),
    (
      arriving-IsArriving (1 ∷ 2 ∷ []) [] 6
          (λ same. absurd (omega (arith, same)), (λ same. absurd (omega (arith, same)), tt))
          (omega arith),
      tt,
    ),
  ),
)
