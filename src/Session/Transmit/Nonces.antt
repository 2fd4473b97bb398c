-- ===== src/Session/Transmit/Nonces.antt =====
-- The nonces that a session transmits: each is used for one frame.
use ssp21_cpp.Base.{
  ℕ, ◌+◌, ◌-◌, ◌≤◌, ◌<◌, ◌^◌, ◌%◌, ◌≡◌, refl, ◌∙◌, sym, ap, Bool, true, false, not, Bytes, List, [],
  ◌∷◌, arith, ltb, leb, ltb-false, if◌then◌else◌,
}
use ssp21_cpp.Ser.{Ser4cpp}
use ssp21_cpp.Wire.{ok, insufficient_space, FormatError}
use ssp21_cpp.Wire.Messages.Bodies.{SessionData, session_data_write}
use ssp21_cpp.Session.{Checked, pass, fail, format, ErrorCode}
use ssp21_cpp.Wire.Structs.Handshake.{AuthMetadata}
use ssp21_cpp.Session.{SecureBuffer}
use ssp21_cpp.Session.Mode.{SessionMode, write}
use ssp21_cpp.Session.Mode.RoundTrip.{write-pass}
use ssp21_cpp.Session.State.{Exe4cpp, milliseconds, Session}
use ssp21_cpp.Session.Receive.Checks.{not-false}
use ssp21_cpp.Session.Transmit.{
  FrameWriter, WriteResult, Formatted, frame_of, send, session_metadata,
  format_session_data_no_nonce_check, format_session_data,
}

-- What a frame leaves of the session that sends it.
abbrev next_nonce : Session → Session
next_nonce s = record s { tx_nonce = (s.tx_nonce + 1) % 2 ^ 16 }

-- A guard that answers an error, left behind by a run that passes.
unguard :
    (b : Bool) (ec : ErrorCode) (s : Session) (c : Bytes) (more : Formatted) (p : Bytes)
    (s' : Session) (rest : Bytes)
    → (if b then (fail ec, s, c) else more) ≡ (pass p, s', rest)
    → (b ≡ false) × (more ≡ (pass p, s', rest))
unguard true ec s c more p s' rest e = ground arith
unguard false ec s c more p s' rest e = (refl, e)

-- The two ways through a guard, where what follows an error keeps the session.
or_more :
    (b : Bool) (ec0 : ErrorCode) (s : Session) (c : Bytes) (more : Formatted) (ec : ErrorCode)
    (s' : Session) (rest : Bytes)
    → (if b then (fail ec0, s, c) else more) ≡ (fail ec, s', rest)
    → (more ≡ (fail ec, s', rest) → s' ≡ s)
    → s' ≡ s
or_more true ec0 s c more ec s' rest e k = sym (ap (λ (t : Formatted). t.1) e)
or_more false ec0 s c more ec s' rest e k = k e

-- From `first` on, without gaps, and below `top`.
abbrev pub Consecutive : ℕ → ℕ → List ℕ → Type 0
Consecutive first top [] = Unit
Consecutive first top (n ∷ nonces) = (n ≡ first) × (n < top × Consecutive (first + 1) top nonces)

abbrev pub nonces : List SessionData → List ℕ
nonces [] = []
nonces (message ∷ messages) = message.metadata.nonce ∷ nonces messages

-- Whatever the mode makes of the rest, a message has the metadata that it is written with.
write_metadata :
    ⦃ser : Ser4cpp⦄
    → (mode : SessionMode) (key : SecureBuffer) (metadata : AuthMetadata) (text : Bytes) (room : ℕ)
      (m : SessionData) (rest : Bytes)
    → write mode key metadata text room ≡ pass (m, rest)
    → m.metadata ≡ metadata
write_metadata mode key metadata text room m rest e =
    let (r, k, ran, same, built) = write-pass mode key metadata text room m rest e in
    ap (λ (t : SessionData). t.metadata) built

module _ ⦃ser : Ser4cpp⦄ ⦃exe : Exe4cpp⦄ (frame_writer : FrameWriter) where
  -- The frame is that of the session data which the session mode made of the metadata and of the
  -- head of the user data.
  pub record IsSent (now : ℕ) (clear_text : Bytes) (s : Session) (frame remaining : Bytes)
      : Type 0 where
    pub valid : s.valid ≡ true
    pub no_rollback : s.parameters.session_start ≤ now
    pub in_session :
        now - s.parameters.session_start + milliseconds s.ttl_pad_ms ≤ s.parameters.max_session_time
    pub message : SessionData
    pub written :
        write s.algorithms.session_mode s.keys.tx_key
          (session_metadata s (now - s.parameters.session_start))
          clear_text
          s.encrypt_buffer
        ≡ pass (message, remaining)
    pub nonce : message.metadata.nonce ≡ s.tx_nonce
    pub framed : (frame_writer.write (session_data_write message)).frame ≡ frame
    pub no_error : (frame_writer.write (session_data_write message)).err ≡ FormatError.ok

  frame_of-pass :
      (s s' : Session) (remaining rest frame : Bytes) (r : WriteResult)
      → frame_of s remaining r ≡ (pass frame, s', rest)
      → (r.err ≡ FormatError.ok) × (r.frame ≡ frame) × (s' ≡ next_nonce s) × (rest ≡ remaining)
  unfolding frame_of
  frame_of-pass s s' remaining rest frame r e = at r.err refl e
    where
      at :
          (err : FormatError)
          → r.err ≡ err
          → ◌≡◌ {A = Formatted}
              (elim err [
                | ok ↦ (pass r.frame, next_nonce s, remaining)
                | insufficient_space ↦ (fail (format insufficient_space), s, remaining)
              ])
              (pass frame, s', rest)
          → (r.err ≡ FormatError.ok) × (r.frame ≡ frame) × (s' ≡ next_nonce s) × (rest ≡ remaining)
      at ok same e = (same, ground arith, ground arith, ground arith)
      at insufficient_space same e = ground arith

  send-pass :
      (s s' : Session) (clear_text rest frame : Bytes) (o : Checked (SessionData × Bytes))
      → send frame_writer s clear_text o ≡ (pass frame, s', rest)
      → (message : SessionData) × (o ≡ pass (message, rest))
        × ((frame_writer.write (session_data_write message)).err ≡ FormatError.ok)
        × ((frame_writer.write (session_data_write message)).frame ≡ frame)
        × (s' ≡ next_nonce s)
  unfolding send
  send-pass s s' clear_text rest frame (pass (message, remaining)) e =
      let (fine, framed, next, same) =
        frame_of-pass s s' remaining rest frame (frame_writer.write (session_data_write message))
          e in
      (message, ap (λ (t : Bytes). pass (message, t)) (sym same), fine, framed, next)
  send-pass s s' clear_text rest frame (fail ec) e = ground arith

  -- A frame is sent only by a valid session, between its start and its end less the padding; the
  -- frame is that of the message made under the session's own nonce, which is then incremented.
  check-pass :
      (now : ℕ) (clear_text : Bytes) (s s' : Session) (frame rest : Bytes)
      → format_session_data_no_nonce_check frame_writer now clear_text s ≡ (pass frame, s', rest)
      → IsSent now clear_text s frame rest × (s' ≡ next_nonce s)
  unfolding format_session_data_no_nonce_check session_metadata
  check-pass now clear_text s s' frame rest e =
      let time = now - s.parameters.session_start in
      let (a, e1) = unguard (not s.valid) _ s clear_text _ frame s' rest e in
      let (b, e2) =
        unguard (ltb now s.parameters.session_start) _ s clear_text _ frame s' rest e1 in
      let (c, e3) =
        unguard (ltb s.parameters.max_session_time time) _ s clear_text _ frame s' rest e2 in
      let (d, e4) =
        unguard (ltb (s.parameters.max_session_time - time) (milliseconds s.ttl_pad_ms)) _ s
          clear_text _ frame s' rest e3 in
      let (message, made, fine, framed, next) = send-pass s s' clear_text rest frame _ e4 in
      let in_time = ltb-false _ _ c in
      let in_pad = ltb-false _ _ d in
      (
        record {
          valid = not-false s.valid a;
          no_rollback = ltb-false _ _ b;
          in_session = omega (arith, in_time, in_pad);
          message = message;
          written = made;
          nonce =
              ap (λ (m : AuthMetadata). m.nonce)
                (write_metadata s.algorithms.session_mode s.keys.tx_key _ clear_text
                  s.encrypt_buffer message rest made);
          framed = framed;
          no_error = fine;
        },
        next,
      )

  frame_of-fail :
      (s s' : Session) (remaining rest : Bytes) (ec : ErrorCode) (r : WriteResult)
      → frame_of s remaining r ≡ (fail ec, s', rest)
      → s' ≡ s
  unfolding frame_of
  frame_of-fail s s' remaining rest ec r e = at r.err e
    where
      at :
          (err : FormatError)
          → ◌≡◌ {A = Formatted}
              (elim err [
                | ok ↦ (pass r.frame, next_nonce s, remaining)
                | insufficient_space ↦ (fail (format insufficient_space), s, remaining)
              ])
              (fail ec, s', rest)
          → s' ≡ s
      at ok e = ground arith
      at insufficient_space e = sym (ap (λ (t : Formatted). t.1) e)

  send-fail :
      (s s' : Session) (clear_text rest : Bytes) (ec : ErrorCode)
      (o : Checked (SessionData × Bytes))
      → send frame_writer s clear_text o ≡ (fail ec, s', rest)
      → s' ≡ s
  unfolding send
  send-fail s s' clear_text rest ec (pass (message, remaining)) e =
      frame_of-fail s s' remaining rest ec (frame_writer.write (session_data_write message)) e
  send-fail s s' clear_text rest ec (fail ec') e = sym (ap (λ (t : Formatted). t.1) e)

  check-fail :
      (now : ℕ) (clear_text : Bytes) (s s' : Session) (ec : ErrorCode) (rest : Bytes)
      → format_session_data_no_nonce_check frame_writer now clear_text s ≡ (fail ec, s', rest)
      → s' ≡ s
  unfolding format_session_data_no_nonce_check
  check-fail now clear_text s s' ec rest e =
      let time = now - s.parameters.session_start in
      or_more (not s.valid) _ s clear_text _ ec s' rest e (λ e1.
        or_more (ltb now s.parameters.session_start) _ s clear_text _ ec s' rest e1 (λ e2.
          or_more (ltb s.parameters.max_session_time time) _ s clear_text _ ec s' rest e2 (λ e3.
            or_more (ltb (s.parameters.max_session_time - time) (milliseconds s.ttl_pad_ms)) _ s
              clear_text _ ec s' rest e3 (λ e4. send-fail s s' clear_text rest ec _ e4))))

  -- `format_session_data` sends a frame only below the maximum nonce, and only for a valid session
  -- between its start and its end less the padding; the frame is that of the message made under the
  -- session's nonce, which is then incremented without wrapping around. The maximum has 16 bits.
  pub format_session_data-pass :
      (now : ℕ) (clear_text : Bytes) (s s' : Session) (frame rest : Bytes)
      → s.parameters.max_nonce < 2 ^ 16
      → format_session_data frame_writer now clear_text s ≡ (pass frame, s', rest)
      → (s.tx_nonce < s.parameters.max_nonce)
        × IsSent now clear_text s frame rest
        × (s' ≡ record s { tx_nonce = s.tx_nonce + 1 })
  unfolding format_session_data
  format_session_data-pass now clear_text s s' frame rest max e =
      let (a, e1) =
        unguard (leb s.parameters.max_nonce s.tx_nonce) _ s clear_text _ frame s' rest e in
      let below : s.tx_nonce < s.parameters.max_nonce = ground arith in
      let (sent, next) = check-pass now clear_text s s' frame rest e1 in
      let plain : (s.tx_nonce + 1) % 2 ^ 16 ≡ s.tx_nonce + 1 = omega (arith, below, max) in
      (below, sent, next ∙ ap (λ (n : ℕ). record s { tx_nonce = n }) plain)

  -- An error of `format_session_data` leaves the session as it was.
  pub format_session_data-fail :
      (now : ℕ) (clear_text : Bytes) (s s' : Session) (ec : ErrorCode) (rest : Bytes)
      → format_session_data frame_writer now clear_text s ≡ (fail ec, s', rest)
      → s' ≡ s
  unfolding format_session_data
  format_session_data-fail now clear_text s s' ec rest e =
      or_more (leb s.parameters.max_nonce s.tx_nonce) _ s clear_text _ ec s' rest e
        (λ e1. check-fail now clear_text s s' ec rest e1)

  -- The frames that are sent, for a list of times and user data.
  pub sent_frames : List (ℕ × Bytes) → Session → List Bytes
  sent_frames [] s = []
  sent_frames (t ∷ requests) s =
      let (result, s', remaining) = format_session_data frame_writer t.0 t.1 s in
      let rest = sent_frames requests s' in
      elim result [ pass frame ↦ frame ∷ rest | fail ec ↦ rest ]

  -- Each frame is what the frame writer makes, without an error, of the message beside it.
  abbrev pub AreFramed : List SessionData → List Bytes → Type 0
  AreFramed [] [] = Unit
  AreFramed [] (frame ∷ frames) = ⊥
  AreFramed (message ∷ messages) [] = ⊥
  AreFramed (message ∷ messages) (frame ∷ frames) =
      ((frame_writer.write (session_data_write message)).err ≡ FormatError.ok)
      × ((frame_writer.write (session_data_write message)).frame ≡ frame)
      × AreFramed messages frames

  -- The messages behind some frames, with their nonces in order.
  IsNumbered : ℕ → ℕ → List Bytes → Type 0
  IsNumbered first top frames =
      (messages : List SessionData) × AreFramed messages frames
      × Consecutive first top (nonces messages)
