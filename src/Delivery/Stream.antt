-- ===== src/Delivery/Stream.antt =====
-- A clear text on its way in several messages, from the sender's transmissions over the frames and
-- the receiver's link layer to what the receiver's session passes on.
use ssp21_cpp.Base.{
  ℕ, suc, ◌+◌, ◌-◌, ◌^◌, ◌≤◌, ◌<◌, ◌≡◌, ◌≢◌, ◌⊎◌, inl, inr, refl, sym, ap, ◌∙◌, Bool, true, Bytes,
  List, [], ◌∷◌, ◌++◌, append_assoc, All, All-append_right, IsByte, Option, none, some, ◌==◌, arith,
  length,
}
use mathlib.Core.Path.{subst}
use ssp21_cpp.Ser.{Ser4cpp}
use ssp21_cpp.Wire.{Parsed, ok, err}
use ssp21_cpp.Wire.Messages.Bodies.{SessionData, session_data_read}
use ssp21_cpp.Wire.Messages.RoundTrip.{session_data_wire}
use ssp21_cpp.Session.{pass, fail, lookup_length_in_bytes}
use ssp21_cpp.Session.State.{Exe4cpp, milliseconds, Session}
use ssp21_cpp.Session.Transmit.{FrameWriter, Formatted, format_session_data}
use ssp21_cpp.Session.Receive.{Validated, validate_session_data}
use ssp21_cpp.Session.Receive.Checks.{take_nonce}
use ssp21_cpp.Link.{Addresses}
use ssp21_cpp.Link.Frame.{frame_bytes}
use ssp21_cpp.Link.Writer.{LinkFrameWriter}
use ssp21_cpp.Link.Writer.Frames.{IsWriter}
use ssp21_cpp.Link.Writer.Contract.{link_frame_writer}
use ssp21_cpp.Delivery.Sent.{IsOpen}
use ssp21_cpp.Delivery.Once.{IsLinked, IsMac, IsTimely, delivered}

-- When a frame is sent, and when its message is handled.
pub record Hop : Type 0 where
  pub now : ℕ
  pub arrived : ℕ

abbrev pub nows : List Hop → List ℕ
nows [] = []
nows (hop ∷ hops) = hop.now ∷ nows hops

abbrev pub arrivals : List Hop → List ℕ
arrivals [] = []
arrivals (hop ∷ hops) = hop.arrived ∷ arrivals hops

abbrev pub frames : Addresses → List Bytes → List Bytes
frames a [] = []
frames a (message ∷ messages) = frame_bytes a message ∷ frames a messages

abbrev pub concat : List Bytes → Bytes
concat [] = []
concat (bytes ∷ more) = bytes ++ concat more

abbrev Sent : Type 0
Sent = Option (List Bytes × (Bytes × Session))

abbrev cons_frame : Bytes → Sent → Sent
cons_frame frame none = none
cons_frame frame (some (others, last)) = some (frame ∷ others, last)

abbrev Received : Type 0
Received = Option (List Bytes × Session)

abbrev cons_payload : Bytes → Received → Received
cons_payload payload none = none
cons_payload payload (some (others, last)) = some (payload ∷ others, last)

-- The rest of the transmissions, after one that gave a frame.
abbrev after_frame : (Bytes → Session → Sent) → Formatted → Sent
after_frame others (fail ec, s, rest) = none
after_frame others (pass frame, s, rest) = cons_frame frame (others rest s)

abbrev after_payload : (Session → Received) → Validated → Received
after_payload others (fail ec, t) = none
after_payload others (pass payload, t) = cons_payload payload (others t)

abbrev after_read : (SessionData → Received) → Parsed SessionData → Received
after_read others (err e) = none
after_read others (ok message) = others message

module _ ⦃ser : Ser4cpp⦄ ⦃exe : Exe4cpp⦄ where
  -- `CryptoLayer::check_transmit`, each time that the lower layer can transmit, until nothing
  -- remains; `none` where the session gives an error.
  pub transmit_many : FrameWriter → List ℕ → Bytes → Session → Sent
  transmit_many frame_writer [] text s = some ([], (text, s))
  transmit_many frame_writer (now ∷ times) [] s = some ([], ([], s))
  transmit_many frame_writer (now ∷ times) (b ∷ text) s =
      after_frame (λ rest next. transmit_many frame_writer times rest next)
        (format_session_data frame_writer now (b ∷ text) s)

  -- `CryptoLayer::on_message` for session data, message by message.
  pub accept_many : List ℕ → List Bytes → ℕ → Session → Received
  accept_many [] messages dest t = some ([], t)
  accept_many (arrived ∷ times) [] dest t = some ([], t)
  accept_many (arrived ∷ times) (message ∷ messages) dest t =
      after_read
        (λ data'.
          after_payload (λ next. accept_many times messages dest next)
            (validate_session_data data' arrived dest t))
        (session_data_read message)

-- A session with nonces for all the hops.
pub record IsSender (hops : List Hop) (s : Session) : Type 0 where
  pub valid : s.valid ≡ true
  pub key : (lookup_length_in_bytes s.keys.tx_key.length == 32) ≡ true
  pub room : 0 < s.encrypt_buffer
  pub nonces : s.tx_nonce + length hops ≤ s.parameters.max_nonce
  pub u16 : s.parameters.max_nonce < 2 ^ 16

module _ ⦃exe : Exe4cpp⦄ where
  -- The sender may send at the time of the hop, and the message arrives in time.
  pub record IsHop (s t : Session) (hop : Hop) : Type 0 where
    pub started : s.parameters.session_start ≤ hop.now
    pub in_session :
        hop.now - s.parameters.session_start + milliseconds s.ttl_pad_ms
        ≤ s.parameters.max_session_time
    pub timely : IsTimely hop.now hop.arrived s t

  later :
      (s t : Session) (message : SessionData) (hops : List Hop)
      → All (IsHop s t) hops
      → All (IsHop (record s { tx_nonce = s.tx_nonce + 1 }) (take_nonce message t)) hops
  unfolding take_nonce
  later s t message [] h = tt
  later s t message (hop ∷ hops) (H, h) = (
    record {
      started = H.started;
      in_session = H.in_session;
      timely = record {
        started = H.timely.started;
        in_session = H.timely.in_session;
        in_time = H.timely.in_time;
        u32 = H.timely.u32;
      };
    },
    later s t message hops h,
  )

module _ ⦃ser : Ser4cpp⦄ ⦃exe : Exe4cpp⦄ (calc : Bytes → List Bytes → Bytes)
    (secure_equals : Bytes → Bytes → Bool) where
  -- What becomes of the text: all of it, or one message for each hop, with one byte at least.
  pub record IsCarried (w : LinkFrameWriter) (hops : List Hop) (dest : ℕ) (text : Bytes)
      (s t : Session) : Type 0 where
    pub messages : List Bytes
    pub payloads : List Bytes
    pub rest : Bytes
    pub s' : Session
    pub t' : Session
    pub sent :
        transmit_many (link_frame_writer w) (nows hops) text s
        ≡ some (frames w.addr messages, (rest, s'))
    pub accepted : accept_many (arrivals hops) messages dest t ≡ some (payloads, t')
    pub whole : concat payloads ++ rest ≡ text
    pub as_many : length messages ≡ length payloads
    pub full : All (λ (p : Bytes). p ≢ []) payloads
    pub done : (rest ≡ []) ⊎ (length messages ≡ length hops)
    pub fit : All (λ (m : Bytes). (m ≢ []) × (length m ≤ 1057)) messages

  pub carried :
      (w : LinkFrameWriter) (hops : List Hop) (dest : ℕ) (text : Bytes) (s t : Session)
      → IsMac calc secure_equals
      → IsWriter w
      → 1057 ≤ w.max_payload_size
      → IsLinked calc secure_equals s t
      → IsSender hops s
      → All IsByte text
      → dest ≤ 65535
      → All (IsHop s t) hops
      → IsCarried w hops dest text s t
  unfolding transmit_many accept_many
  carried w [] dest text s t M V wide K O bytes small H = record {
    messages = [];
    payloads = [];
    rest = text;
    s' = s;
    t' = t;
    sent = refl;
    accepted = refl;
    whole = refl;
    as_many = refl;
    full = tt;
    done = inr refl;
    fit = tt;
  }
  carried w (hop ∷ hops) dest [] s t M V wide K O bytes small H = record {
    messages = [];
    payloads = [];
    rest = [];
    s' = s;
    t' = t;
    sent = refl;
    accepted = refl;
    whole = refl;
    as_many = refl;
    full = tt;
    done = inl refl;
    fit = tt;
  }
  carried w (hop ∷ hops) dest (b ∷ text) s t M V wide K O bytes small (H, Hs) =
      let open_now : IsOpen hop.now s = record {
        valid = O.valid;
        key = O.key;
        room = O.room;
        started = H.started;
        in_session = H.in_session;
        nonce = omega (arith, O.nonces);
        u16 = O.u16;
      } in
      let (message, payload, rest, sent, again, short, full, whole, validated, linked) =
        delivered calc secure_equals w hop.now hop.arrived dest b text s t M V wide K open_now bytes
          small H.timely in
      let s1 : Session = record s { tx_nonce = s.tx_nonce + 1 } in
      let more : IsSender hops s1 = record {
        valid = O.valid;
        key = O.key;
        room = O.room;
        nonces = omega (arith, O.nonces);
        u16 = O.u16;
      } in
      let rest_bytes =
        All-append_right IsByte payload rest (subst (All IsByte) (sym whole) bytes) in
      let C =
        carried w hops dest rest s1 (take_nonce message t) M V wide linked more rest_bytes small
          (later s t message hops Hs) in
      record {
        messages = session_data_wire message ∷ C.messages;
        payloads = payload ∷ C.payloads;
        rest = C.rest;
        s' = C.s';
        t' = C.t';
        sent = rw (sent, C.sent) refl;
        accepted = rw (again, validated, C.accepted) refl;
        whole =
            append_assoc payload (concat C.payloads) C.rest
            ∙ ap (λ (xs : Bytes). payload ++ xs) C.whole
            ∙ whole;
        as_many = ap suc C.as_many;
        full = (full, C.full);
        done = elim C.done [ inl e ↦ inl e | inr e ↦ inr (ap suc e) ];
        fit = ((λ e. cc, short), C.fit);
      }
