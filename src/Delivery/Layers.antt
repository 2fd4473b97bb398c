-- ===== src/Delivery/Layers.antt =====
-- From session to session, with the link layer between them.
use ssp21_cpp.Base.{
  ℕ, suc, ◌≤◌, ◌≡◌, ◌≢◌, ◌⊎◌, inl, inr, refl, sym, ap, ◌∙◌, Bool, Bytes, List, [], ◌∷◌, ◌++◌,
  append-nil, All, IsByte, some, arith, length,
}
use ssp21_cpp.Ser.{Ser4cpp}
use ssp21_cpp.Session.State.{Exe4cpp, Session}
use ssp21_cpp.Link.{Addresses}
use ssp21_cpp.Link.Frame.{frame_bytes, IsAddresses}
use ssp21_cpp.Link.Writer.{LinkFrameWriter}
use ssp21_cpp.Link.Writer.Frames.{IsWriter}
use ssp21_cpp.Link.Writer.Contract.{link_frame_writer}
use ssp21_cpp.Link.Layer.{LinkLayer}
use ssp21_cpp.Link.Layer.Sequence.{
  Arriving, IsArriving, Batch, chunks_of, frames_of, payloads, IsWaiting, receive_many,
  received_in_order,
}
use ssp21_cpp.Delivery.Once.{IsLinked, IsMac}
use ssp21_cpp.Delivery.Stream.{
  Hop, nows, arrivals, frames, concat, transmit_many, accept_many, IsHop, IsSender, carried,
}

-- Each message in a frame of its own, as the lower layer has them.
abbrev arriving : Addresses → Bytes → Arriving
arriving a message = record { noise = []; addresses = a; payload = message }

abbrev batches : Addresses → List Bytes → List Batch
batches a [] = []
batches a (message ∷ messages) = (arriving a message, []) ∷ batches a messages

chunks_of-batches : (a : Addresses) (ms : List Bytes) → chunks_of (batches a ms) ≡ frames a ms
chunks_of-batches a [] = refl
chunks_of-batches a (m ∷ ms) = rw (append-nil (frame_bytes a m), chunks_of-batches a ms) refl

payloads-batches : (a : Addresses) (ms : List Bytes) → payloads (frames_of (batches a ms)) ≡ ms
payloads-batches a [] = refl
payloads-batches a (m ∷ ms) = ap (λ (xs : List Bytes). m ∷ xs) (payloads-batches a ms)

length-batches : (a : Addresses) (ms : List Bytes) → length (frames_of (batches a ms)) ≡ length ms
length-batches a [] = refl
length-batches a (m ∷ ms) = ap suc (length-batches a ms)

batches-IsArriving :
    (a : Addresses) (maximum : ℕ) (ms : List Bytes)
    → IsAddresses a
    → 1057 ≤ maximum
    → All (λ (m : Bytes). (m ≢ []) × (length m ≤ 1057)) ms
    → All (IsArriving a.destination maximum) (frames_of (batches a ms))
batches-IsArriving a maximum [] A wide h = tt
batches-IsArriving a maximum (m ∷ ms) A wide ((full, short), h) = (
  record {
    quiet = tt;
    addresses = A;
    mine = refl;
    some_payload = full;
    small = omega (arith, short);
    fits = omega (arith, short, wide);
  },
  batches-IsArriving a maximum ms A wide h,
)

module _ ⦃ser : Ser4cpp⦄ where
  -- The link layer at the destination hands out the messages of the frames.
  frames-received :
      (a : Addresses) (maximum : ℕ) (ms : List Bytes) (layer : LinkLayer)
      → IsAddresses a
      → 1057 ≤ maximum
      → IsWaiting a.destination maximum [] layer
      → All (λ (m : Bytes). (m ≢ []) × (length m ≤ 1057)) ms
      → (after : LinkLayer) × (receive_many (length ms) 2 (layer, frames a ms)
          ≡ some (ms, (after, [])))
  frames-received a maximum ms layer A wide W h =
      let (after, ran, waits) =
        received_in_order 0 a.destination maximum (batches a ms) [] layer W
          (batches-IsArriving a maximum ms A wide h) in
      (
        after,
        ap (λ (n : ℕ). receive_many n 2 (layer, frames a ms)) (sym (length-batches a ms))
            ∙ ap
                (λ (chunks : List Bytes).
                  receive_many (length (frames_of (batches a ms))) 2 (layer, chunks))
                (sym (chunks_of-batches a ms))
            ∙ ran
            ∙ ap (λ (xs : List Bytes). some (xs, (after, []))) (payloads-batches a ms),
      )

  module _ ⦃exe : Exe4cpp⦄ (calc : Bytes → List Bytes → Bytes)
      (secure_equals : Bytes → Bytes → Bool) where
    -- A clear text reaches the other end in order. Between two linked sessions in the mode that
    -- authenticates only, where the sender has a key and a nonce for each hop, may send at the time
    -- of each hop, and each message is handled in time; with a link frame writer that has room for
    -- the largest message, and a link layer at its destination that waits for a frame and has that
    -- room too: sending at the times of the hops gives frames without an error; the link layer hands
    -- out as many messages as there are frames; the receiver accepts each of them, and what it
    -- passes on, one payload that is not empty after the other, is the text up to what remains with
    -- the sender, which is nothing, or there was a message for every hop.
    pub text_delivered :
        (w : LinkFrameWriter) (layer : LinkLayer) (maximum : ℕ) (hops : List Hop) (dest : ℕ)
        (text : Bytes) (s t : Session)
        → IsMac calc secure_equals
        → IsWriter w
        → 1057 ≤ w.max_payload_size
        → 1057 ≤ maximum
        → IsWaiting w.addr.destination maximum [] layer
        → IsLinked calc secure_equals s t
        → IsSender hops s
        → All IsByte text
        → dest ≤ 65535
        → All (IsHop s t) hops
        → (messages passed : List Bytes) × (rest : Bytes) × (s' t' : Session) × (after : LinkLayer)
          × (transmit_many (link_frame_writer w) (nows hops) text s
              ≡ some (frames w.addr messages, (rest, s')))
          × (receive_many (length messages) 2 (layer, frames w.addr messages)
              ≡ some (messages, (after, [])))
          × (accept_many (arrivals hops) messages dest t ≡ some (passed, t'))
          × (concat passed ++ rest ≡ text)
          × All (λ (p : Bytes). p ≢ []) passed
          × ((rest ≡ []) ⊎ (length passed ≡ length hops))
    text_delivered w layer maximum hops dest text s t M V wide wide2 W K O bytes small H =
        let C = carried calc secure_equals w hops dest text s t M V wide K O bytes small H in
        let (after, ran) =
          frames-received w.addr maximum C.messages layer V.addresses wide2 W C.fit in
        (
          C.messages,
          C.payloads,
          C.rest,
          C.s',
          C.t',
          after,
          C.sent,
          ran,
          C.accepted,
          C.whole,
          C.full,
          elim C.done [ inl e ↦ inl e | inr e ↦ inr (sym C.as_many ∙ e) ],
        )
