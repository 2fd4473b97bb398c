-- ===== src/Delivery/Once.antt =====
-- A message that one session sends, the other one accepts.
use ssp21_cpp.Base.{
  ℕ, suc, ◌+◌, ◌-◌, ◌/◌, ◌%◌, ◌^◌, ◌≤◌, ◌<◌, ◌≡◌, ◌≢◌, sym, ap, ◌∙◌, Bool, true, Bytes, List, [],
  ◌∷◌, ◌++◌, All, IsByte, arith, length, take, drop, take-append-drop, min,
}
use mathlib.Core.Path.{subst}
use ssp21_cpp.Ser.{Ser4cpp}
use ssp21_cpp.Wire.{ok}
use ssp21_cpp.Wire.Structs.Handshake.{AuthMetadata}
use ssp21_cpp.Wire.Messages.Bodies.{SessionData, session_data_read, session_data_write}
use ssp21_cpp.Wire.Messages.RoundTrip.{
  session_data_wire, session_data_read-wire, session_data_write-wire,
}
use ssp21_cpp.Session.{pass}
use ssp21_cpp.Session.Mode.{SessionMode, write, read}
use ssp21_cpp.Session.Mode.RoundTrip.{
  write-pass, mac_read-write, mac_write-pass, calc_user_data_tx_length-min,
}
use ssp21_cpp.Session.State.{Exe4cpp, milliseconds, Session}
use ssp21_cpp.Session.Transmit.{WriteResult, format_session_data, session_metadata}
use ssp21_cpp.Session.Transmit.Nonces.{format_session_data-pass}
use ssp21_cpp.Session.Receive.{validate_session_data}
use ssp21_cpp.Session.Receive.Checks.{
  IsFresh, payload_of, take_nonce, validate_session_data-accepts,
}
use ssp21_cpp.Link.Frame.{frame_bytes}
use ssp21_cpp.Link.Writer.{LinkFrameWriter}
use ssp21_cpp.Link.Writer.Frames.{IsWriter}
use ssp21_cpp.Link.Writer.Contract.{link_frame_writer, link_frame_writer-frame_bytes}
use ssp21_cpp.Delivery.Sent.{IsOpen, written, format_session_data-sends}
use ssp21_cpp.Delivery.Message.{trunc16_mode, written-IsSessionData, milliseconds-div}

module _ ⦃exe : Exe4cpp⦄ where
  -- The message arrives within the receiver's session, and less than the padding later, but for a
  -- millisecond, as both count the time of their sessions.
  pub record IsTimely (now arrived : ℕ) (s t : Session) : Type 0 where
    pub started : t.parameters.session_start ≤ arrived
    pub in_session : arrived - t.parameters.session_start ≤ t.parameters.max_session_time
    pub in_time :
        arrived - t.parameters.session_start + exe.ticks_per_ms
        ≤ now - s.parameters.session_start + milliseconds s.ttl_pad_ms
    pub u32 :
        (now - s.parameters.session_start + milliseconds s.ttl_pad_ms) / exe.ticks_per_ms < 2 ^ 32

module _ ⦃ser : Ser4cpp⦄ ⦃exe : Exe4cpp⦄ (calc : Bytes → List Bytes → Bytes)
    (secure_equals : Bytes → Bytes → Bool) where
  -- The receiver has the key that the sender transmits with and the nonce before the next one,
  -- accepts the nonces in their order, and both use the mode that authenticates only.
  pub record IsLinked (s t : Session) : Type 0 where
    pub valid : t.valid ≡ true
    pub same_key : t.keys.rx_key ≡ s.keys.tx_key
    pub mode1 : s.algorithms.session_mode ≡ trunc16_mode calc secure_equals
    pub mode2 : t.algorithms.session_mode ≡ trunc16_mode calc secure_equals
    pub max_nonce : s.parameters.max_nonce ≤ t.parameters.max_nonce + 1
    pub next : s.tx_nonce ≡ t.rx_nonce + 1
    pub in_order : (n : ℕ) → n + 1 < 2 ^ 16 → t.algorithms.verify_nonce n (n + 1) ≡ true

  -- What the backend does: a MAC is bytes, and equal bytes are found equal.
  pub record IsMac : Type 0 where
    pub bytes : (key : Bytes) (parts : List Bytes) → All IsByte (calc key parts)
    pub equal : (b : Bytes) → secure_equals b b ≡ true

  timely-IsFresh :
      (now arrived : ℕ) (s t : Session) (message : SessionData)
      → message.metadata ≡ session_metadata s (now - s.parameters.session_start)
      → IsLinked s t
      → IsOpen now s
      → IsTimely now arrived s t
      → IsFresh t.algorithms.verify_nonce message arrived t
  unfolding session_metadata
  timely-IsFresh now arrived s t message metadata K O T =
      let time = now - s.parameters.session_start + milliseconds s.ttl_pad_ms in
      let cut = milliseconds-div time in
      let whole : time / exe.ticks_per_ms % 2 ^ 32 ≡ time / exe.ticks_per_ms =
        omega (arith, T.u32) in
      let small : t.rx_nonce + 1 < 2 ^ 16 = omega (arith, K.next, O.nonce, O.u16) in
      rw metadata record {
        no_rollback = T.started;
        in_session = T.in_session;
        alive = rw whole (omega (arith, cut, T.in_time));
        max_nonce = omega (arith, O.nonce, K.max_nonce);
        verified = rw K.next (K.in_order t.rx_nonce small);
      }

  -- A message that was sent is accepted.
  accepted :
      (w : LinkFrameWriter) (now arrived dest b : ℕ) (clear_text : Bytes) (s s' t : Session)
      (frame rest : Bytes)
      → IsMac
      → IsWriter w
      → 1057 ≤ w.max_payload_size
      → IsLinked s t
      → IsOpen now s
      → All IsByte (b ∷ clear_text)
      → format_session_data (link_frame_writer w) now (b ∷ clear_text) s ≡ (pass frame, s', rest)
      → dest ≤ 65535
      → IsTimely now arrived s t
      → (message : SessionData) × (payload : Bytes) × (frame
          ≡ frame_bytes w.addr (session_data_wire message))
        × (session_data_read (session_data_wire message) ≡ ok message)
        × (length (session_data_wire message) ≤ 1057)
        × (message.metadata.nonce ≡ s.tx_nonce)
        × (payload ≢ [])
        × (payload ++ rest ≡ b ∷ clear_text)
        × (validate_session_data message arrived dest t ≡ (pass payload, take_nonce message t))
  unfolding payload_of session_metadata
  accepted w now arrived dest b clear_text s s' t frame rest M V wide K O bytes sent small T =
      let (below, S, next) =
        format_session_data-pass (link_frame_writer w) now (b ∷ clear_text) s s' frame rest O.u16
          sent in
      let whole = b ∷ clear_text in
      let time = now - s.parameters.session_start in
      let metadata = session_metadata s time in
      let n = min (min (length whole) s.encrypt_buffer) 1024 in
      let written : write (trunc16_mode calc secure_equals) s.keys.tx_key metadata whole
            s.encrypt_buffer
          ≡ pass (S.message, rest) =
        subst
          (λ (m : SessionMode).
            write m s.keys.tx_key metadata whole s.encrypt_buffer ≡ pass (S.message, rest))
          K.mode1 S.written in
      let (valid, size) =
        written-IsSessionData calc secure_equals s time whole S.message rest M.bytes bytes
          (omega (arith, below, O.u16)) written in
      let wire = session_data_wire S.message in
      let wrote =
        link_frame_writer-frame_bytes w (session_data_write S.message) wire V
          (λ v fits. session_data_write-wire S.message v valid fits) (omega (arith, size, wide)) in
      let (r, k, ran, remains, built) =
        write-pass (trunc16_mode calc secure_equals) s.keys.tx_key metadata whole s.encrypt_buffer
          S.message rest written in
      let positive : n ≡ suc (n - 1) = omega (arith, O.room) in
      let head : take n whole ≡ b ∷ take (n - 1) clear_text =
        ap (λ (i : ℕ). take i whole) positive in
      let rest_is : rest ≡ drop n whole =
        remains
        ∙ ap (λ (i : ℕ). drop i whole)
            (calc_user_data_tx_length-min (length whole) s.encrypt_buffer) in
      let same_metadata =
        (mac_write-pass calc secure_equals 16 s.keys.tx_key metadata whole s.encrypt_buffer
          S.message rest written).1 in
      let got =
        mac_read-write calc secure_equals 16 s.keys.tx_key t.keys.rx_key metadata whole
          s.encrypt_buffer dest S.message rest M.equal K.same_key small written in
      (
        S.message,
        b ∷ take (n - 1) clear_text,
        sym S.framed ∙ ap (λ (o : WriteResult). o.frame) wrote,
        session_data_read-wire S.message valid,
        size,
        ap (λ (m : AuthMetadata). m.nonce) same_metadata,
        λ e. cc,
        ap (λ (xs : Bytes). xs ++ rest) (sym head)
            ∙ ap (λ (xs : Bytes). take n whole ++ xs) rest_is
            ∙ take-append-drop n whole,
        validate_session_data-accepts S.message arrived dest b (take (n - 1) clear_text) t K.valid
            (ap (λ (m : SessionMode). read m t.keys.rx_key S.message dest) K.mode2
              ∙ got
              ∙ ap pass head)
            (timely-IsFresh now arrived s t S.message same_metadata K O T),
      )

  -- With a link frame writer that has room for the largest message, and a MAC of bytes that the
  -- backend finds equal to itself, between two linked sessions: a session that is open, with a clear
  -- text that is not empty, sends a whole link frame for the writer's addresses under its nonce,
  -- which it then increments; what the frame holds is read back as a message, a part of the clear
  -- text that is not empty went into it and the rest of the text is returned, and a receiver that
  -- it reaches in time passes on exactly this part, and the two sessions are linked again.
  pub delivered :
      (w : LinkFrameWriter) (now arrived dest b : ℕ) (clear_text : Bytes) (s t : Session)
      → IsMac
      → IsWriter w
      → 1057 ≤ w.max_payload_size
      → IsLinked s t
      → IsOpen now s
      → All IsByte (b ∷ clear_text)
      → dest ≤ 65535
      → IsTimely now arrived s t
      → (message : SessionData) × (payload rest : Bytes) × (format_session_data
            (link_frame_writer w)
            now
            (b ∷ clear_text)
            s
          ≡ (
            pass (frame_bytes w.addr (session_data_wire message)),
            record s { tx_nonce = s.tx_nonce + 1 },
            rest,
          ))
        × (session_data_read (session_data_wire message) ≡ ok message)
        × (length (session_data_wire message) ≤ 1057)
        × (payload ≢ [])
        × (payload ++ rest ≡ b ∷ clear_text)
        × (validate_session_data message arrived dest t ≡ (pass payload, take_nonce message t))
        × IsLinked (record s { tx_nonce = s.tx_nonce + 1 }) (take_nonce message t)
  unfolding take_nonce
  delivered w now arrived dest b clear_text s t M V wide K O bytes small T =
      let text = b ∷ clear_text in
      let metadata = session_metadata s (now - s.parameters.session_start) in
      let (m, rest, made) =
        written calc secure_equals s.keys.tx_key metadata text s.encrypt_buffer O.key O.room in
      let (valid, size) =
        written-IsSessionData calc secure_equals s (now - s.parameters.session_start) text m rest
          M.bytes bytes (omega (arith, O.nonce, O.u16)) made in
      let sent =
        format_session_data-sends (link_frame_writer w) now text s m rest (session_data_wire m) _ O
          (ap (λ (mode : SessionMode). write mode s.keys.tx_key metadata text s.encrypt_buffer)
              K.mode1
            ∙ made)
          (link_frame_writer-frame_bytes w (session_data_write m) (session_data_wire m) V
            (λ v fits. session_data_write-wire m v valid fits) (omega (arith, size, wide))) in
      let (message, payload, framed, again, short, nonce, full, whole, validated) =
        accepted w now arrived dest b clear_text s _ t _ rest M V wide K O bytes sent small T in
      (
        message,
        payload,
        rest,
        sent ∙ ap (λ (f : Bytes). (pass f, record s { tx_nonce = s.tx_nonce + 1 }, rest)) framed,
        again,
        short,
        full,
        whole,
        validated,
        record {
          valid = K.valid;
          same_key = K.same_key;
          mode1 = K.mode1;
          mode2 = K.mode2;
          max_nonce = K.max_nonce;
          next = ap (λ (n : ℕ). n + 1) (sym nonce);
          in_order = K.in_order;
        },
      )
