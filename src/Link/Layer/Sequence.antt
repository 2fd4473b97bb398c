-- ===== src/Link/Layer/Sequence.antt =====
-- The frames that come out of the link layer, call after call of `start_rx_from_upper`.
use ssp21_cpp.Base.{
  ℕ, zero, suc, ◌≤◌, ◌<◌, ◌^◌, ◌≡◌, ◌≢◌, refl, ap, sym, ◌∙◌, Bool, true, Bytes, List, [], ◌∷◌, ◌++◌,
  Option, none, some, All, length, ==_refl, arith,
}
use ssp21_cpp.Ser.{Ser4cpp}
use ssp21_cpp.Link.{Addresses}
use ssp21_cpp.Link.Frame.{frame_bytes, IsAddresses}
use ssp21_cpp.Link.Parser
use ssp21_cpp.Link.Parser.{LinkParser, parse, has_result, at_sync1}
use ssp21_cpp.Link.Parser.Complete.{IsNoise, parse-frame_bytes}
use ssp21_cpp.Link.Layer.{
  LinkLayer, Reading, parsed, addressed, read_frames, get_frame, start_rx_from_upper, begin_rx,
  end_rx,
}
use ssp21_cpp.Link.Layer.Reading.{pulled, went}
use ssp21_cpp.Link.Layer.Delivery.{start_rx_from_upper_lem, read_some}

-- A frame as it arrives, behind some noise.
pub record Arriving : Type 0 where
  pub noise : Bytes
  pub addresses : Addresses
  pub payload : Bytes

-- For a layer with this address and this maximum of a payload.
pub record IsArriving (local_addr maximum : ℕ) (x : Arriving) : Type 0 where
  pub quiet : All IsNoise x.noise
  pub addresses : IsAddresses x.addresses
  pub mine : x.addresses.destination ≡ local_addr
  pub some_payload : x.payload ≢ []
  pub small : length x.payload < 2 ^ 16
  pub fits : length x.payload ≤ maximum

abbrev pub stream : List Arriving → Bytes
stream [] = []
stream (x ∷ xs) = x.noise ++ (frame_bytes x.addresses x.payload ++ stream xs)

-- What the lower layer has at one time: one frame, or more.
abbrev pub Batch : Type 0
Batch = Arriving × List Arriving

abbrev pub chunks_of : List Batch → List Bytes
chunks_of [] = []
chunks_of ((x, xs) ∷ batches) = stream (x ∷ xs) ∷ chunks_of batches

abbrev pub frames_of : List Batch → List Arriving
frames_of [] = []
frames_of ((x, xs) ∷ batches) = x ∷ (xs ++ frames_of batches)

abbrev pub payloads : List Arriving → List Bytes
payloads [] = []
payloads (x ∷ xs) = x.payload ∷ payloads xs

-- The parser waits for a frame, once the data that were handed out are discarded.
pub record IsWaiting (local_addr maximum : ℕ) (pending : Bytes) (layer : LinkLayer) : Type 0 where
  pub waits : (begin_rx layer).parser.state ≡ at_sync1
  pub remainder : (begin_rx layer).remainder ≡ pending
  pub local : (begin_rx layer).local_addr ≡ local_addr
  pub room : (begin_rx layer).parser.context.max_payload_length ≡ maximum

some_bytes :
    (noise : Bytes) (a : Addresses) (payload rest : Bytes)
    → (b : ℕ) × (bytes : Bytes) × (noise ++ (frame_bytes a payload ++ rest) ≡ b ∷ bytes)
unfolding frame_bytes
some_bytes [] a payload rest = (_, _, refl)
some_bytes (b ∷ noise) a payload rest = (_, _, refl)

end_rx-handed :
    (payload : Bytes) (layer : LinkLayer) (chunks : List Bytes)
    → payload ≢ []
    → end_rx (payload, layer, chunks)
      ≡ (payload, record layer { upper_is_processing_rx_data = true }, chunks)
end_rx-handed [] layer chunks full = absurd (full refl)
end_rx-handed (b ∷ payload) layer chunks full = refl

module _ ⦃ser : Ser4cpp⦄ where
  -- Calls of `start_rx_from_upper`, one after the other.
  pub receive_many : ℕ → ℕ → Reading → Option (List Bytes × Reading)
  receive_many zero fuel r = some ([], r)
  receive_many (suc n) fuel r = elim (start_rx_from_upper fuel r) [
    | none ↦ none
    | some (ret, layer, chunks) ↦ elim (receive_many n fuel (layer, chunks)) [
      | none ↦ none
      | some (rets, last) ↦ some (ret ∷ rets, last)
    ]
  ]

  -- The frame that is next in the remainder is read in one round.
  next_read :
      (fuel local_addr maximum : ℕ) (layer : LinkLayer) (chunks : List Bytes) (x : Arriving)
      (rest : Bytes)
      → layer.parser.state ≡ at_sync1
      → layer.remainder ≡ x.noise ++ (frame_bytes x.addresses x.payload ++ rest)
      → layer.parser.context.max_payload_length ≡ maximum
      → IsArriving local_addr maximum x
      → (next : LinkParser) × (read_frames (suc fuel) (layer, chunks)
          ≡ some (parsed layer (next, rest), chunks))
        × (Parser.read next ≡ some (x.addresses, x.payload))
        × (next.context.max_payload_length ≡ maximum)
  next_read fuel local_addr maximum layer chunks x rest waits e room A =
      let (b, bytes, cons) = some_bytes x.noise x.addresses x.payload rest in
      let (next, ran, result, kept) =
        parse-frame_bytes layer.parser x.noise x.addresses x.payload rest waits A.quiet A.addresses
          A.small (omega (arith, room, A.fits)) in
      (
        next,
        went fuel layer b bytes chunks (next, rest) true (e ∙ cons)
            (ap (parse layer.parser) (sym cons) ∙ ran)
            (read_some next (x.addresses, x.payload) result),
        result,
        kept ∙ room,
      )

  get_frame_ran :
      (fuel : ℕ) (layer : LinkLayer) (chunks : List Bytes) (next : Reading)
      → layer.parser.state ≡ at_sync1
      → read_frames fuel (layer, chunks) ≡ some next
      → get_frame fuel (layer, chunks) ≡ some (has_result next.0.parser, next.0, next.1)
  unfolding get_frame
  get_frame_ran fuel layer chunks next waits ran = rw (waits, ran, get_frame)

  handed_mine :
      (layer : LinkLayer) (local_addr maximum : ℕ) (x : Arriving)
      → Parser.read layer.parser ≡ some (x.addresses, x.payload)
      → layer.local_addr ≡ local_addr
      → IsArriving local_addr maximum x
      → addressed layer (Parser.read layer.parser) ≡ x.payload
  handed_mine layer local_addr maximum x result own A = rw (result, A.mine, own, ==_refl local_addr)

  -- One frame is handed out, and what is behind it is left.
  frame_handed :
      (fuel local_addr maximum : ℕ) (layer : LinkLayer) (chunks left : List Bytes) (x : Arriving)
      (rest : Bytes) (next : LinkParser)
      → (begin_rx layer).parser.state ≡ at_sync1
      → (begin_rx layer).local_addr ≡ local_addr
      → IsArriving local_addr maximum x
      → read_frames fuel (begin_rx layer, chunks)
        ≡ some (parsed (begin_rx layer) (next, rest), left)
      → Parser.read next ≡ some (x.addresses, x.payload)
      → next.context.max_payload_length ≡ maximum
      → (after : LinkLayer) × (start_rx_from_upper fuel (layer, chunks)
          ≡ some (x.payload, after, left))
        × IsWaiting local_addr maximum rest after
  unfolding Parser.reset
  frame_handed fuel local_addr maximum layer chunks left x rest next waits own A ran result room =
      let read_layer = parsed (begin_rx layer) (next, rest) in
      let found =
        get_frame_ran fuel (begin_rx layer) chunks (read_layer, left) waits ran
        ∙ ap (λ (b : Bool). some (b, read_layer, left))
            (read_some next (x.addresses, x.payload) result) in
      (
        record read_layer { upper_is_processing_rx_data = true },
        start_rx_from_upper_lem layer chunks fuel (true, read_layer, left) found
            ∙ ap (λ (p : Bytes). some (end_rx (p, read_layer, left)))
                (handed_mine read_layer local_addr maximum x result own A)
            ∙ ap some (end_rx-handed x.payload read_layer left A.some_payload),
        record { waits = refl; remainder = refl; local = own; room = room },
      )

  -- A frame that is pending.
  pending_frame :
      (fuel local_addr maximum : ℕ) (layer : LinkLayer) (chunks : List Bytes) (x : Arriving)
      (rest : Bytes)
      → IsWaiting local_addr maximum (x.noise ++ (frame_bytes x.addresses x.payload ++ rest)) layer
      → IsArriving local_addr maximum x
      → (after : LinkLayer) × (start_rx_from_upper (suc fuel) (layer, chunks)
          ≡ some (x.payload, after, chunks))
        × IsWaiting local_addr maximum rest after
  pending_frame fuel local_addr maximum layer chunks x rest W A =
      let (next, ran, result, room) =
        next_read fuel local_addr maximum (begin_rx layer) chunks x rest W.waits W.remainder W.room
          A in
      frame_handed (suc fuel) local_addr maximum layer chunks chunks x rest next W.waits W.local A
        ran result room

  -- A frame that the lower layer has.
  pulled_frame :
      (fuel local_addr maximum : ℕ) (layer : LinkLayer) (chunks : List Bytes) (x : Arriving)
      (rest : Bytes)
      → IsWaiting local_addr maximum [] layer
      → IsArriving local_addr maximum x
      → (after : LinkLayer) × (start_rx_from_upper
            (suc (suc fuel))
            (layer, (x.noise ++ (frame_bytes x.addresses x.payload ++ rest)) ∷ chunks)
          ≡ some (x.payload, after, chunks))
        × IsWaiting local_addr maximum rest after
  pulled_frame fuel local_addr maximum layer chunks x rest W A =
      let chunk = x.noise ++ (frame_bytes x.addresses x.payload ++ rest) in
      let (b, bytes, cons) = some_bytes x.noise x.addresses x.payload rest in
      let (next, ran, result, room) =
        next_read fuel local_addr maximum (record (begin_rx layer) { remainder = chunk }) chunks x
          rest W.waits refl W.room A in
      let pull =
        ap (λ (c : Bytes). read_frames (suc (suc fuel)) (begin_rx layer, c ∷ chunks)) cons
        ∙ pulled (suc fuel) (begin_rx layer) b bytes chunks W.remainder
        ∙ ap
            (λ (c : Bytes).
              read_frames (suc fuel) (record (begin_rx layer) { remainder = c }, chunks))
            (sym cons) in
      frame_handed (suc (suc fuel)) local_addr maximum layer (chunk ∷ chunks) chunks x rest next
        W.waits W.local A (pull ∙ ran) result room

  receive_many-suc :
      (n fuel : ℕ) (r : Reading) (ret : Bytes) (layer : LinkLayer) (chunks : List Bytes)
      (rets : List Bytes) (last : Reading)
      → start_rx_from_upper fuel r ≡ some (ret, layer, chunks)
      → receive_many n fuel (layer, chunks) ≡ some (rets, last)
      → receive_many (suc n) fuel r ≡ some (ret ∷ rets, last)
  unfolding receive_many
  receive_many-suc n fuel r ret layer chunks rets last first others =
      rw (first, others, receive_many)

  -- The link layer hands out every frame for it, in order, and ends: with a layer that waits for a
  -- frame, frames that are pending in it, behind noise without the first synchronization byte, and
  -- chunks of such frames at the lower layer, where all are for the layer's address, with a payload
  -- that is not empty and within the parser's maximum, as many calls of `start_rx_from_upper` as
  -- there are frames give their payloads in the order of the frames, with two rounds of its loop
  -- for each call, and leave a layer that waits, with nothing pending, and no chunk.
  pub received_in_order :
      (fuel local_addr maximum : ℕ) (batches : List Batch) (xs : List Arriving) (layer : LinkLayer)
      → IsWaiting local_addr maximum (stream xs) layer
      → All (IsArriving local_addr maximum) (xs ++ frames_of batches)
      → (after : LinkLayer) × (receive_many
            (length (xs ++ frames_of batches))
            (suc (suc fuel))
            (layer, chunks_of batches)
          ≡ some (payloads (xs ++ frames_of batches), (after, [])))
        × IsWaiting local_addr maximum [] after
  unfolding receive_many
  received_in_order fuel local_addr maximum [] [] layer W A = (layer, refl, W)
  received_in_order fuel local_addr maximum batches (x ∷ xs) layer W (A, As) =
      let (next, first, W2) =
        pending_frame (suc fuel) local_addr maximum layer (chunks_of batches) x (stream xs) W A in
      let (last, others, W3) = received_in_order fuel local_addr maximum batches xs next W2 As in
      (
        last,
        receive_many-suc (length (xs ++ frames_of batches)) (suc (suc fuel)) _ x.payload next
            (chunks_of batches) (payloads (xs ++ frames_of batches)) (last, []) first others,
        W3,
      )
  received_in_order fuel local_addr maximum ((x, xs) ∷ batches) [] layer W (A, As) =
      let (next, first, W2) =
        pulled_frame fuel local_addr maximum layer (chunks_of batches) x (stream xs) W A in
      let (last, others, W3) = received_in_order fuel local_addr maximum batches xs next W2 As in
      (
        last,
        receive_many-suc (length (xs ++ frames_of batches)) (suc (suc fuel)) _ x.payload next
            (chunks_of batches) (payloads (xs ++ frames_of batches)) (last, []) first others,
        W3,
      )
