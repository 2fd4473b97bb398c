-- ===== src/Layer/Crypto.antt =====
-- cpp/libs/ssp21/src/crypto/CryptoLayer.cpp. The virtual functions of the derived classes are
-- `Virtual`; `now` is what the executor's clock says while an event is handled.
use ssp21_cpp.Base.{
  ℕ, zero, suc, Bool, true, false, ◌&&◌, not, Bytes, [], ◌∷◌, ◌==◌, Option, none, some,
  if◌then◌else◌,
}
use ssp21_cpp.Ser.{Ser4cpp}
use ssp21_cpp.Wire.{Parsed, ok, err, ParseError}
use ssp21_cpp.Wire.Enums.Handshake.{Function, function_spec}
use ssp21_cpp.Wire.Messages.Bodies.{
  RequestHandshakeBegin, request_handshake_begin_read, ReplyHandshakeBegin,
  reply_handshake_begin_read, ReplyHandshakeError, reply_handshake_error_read, SessionData,
  session_data_read,
}
use ssp21_cpp.Session.{Checked, pass, fail}
use ssp21_cpp.Session.State
use ssp21_cpp.Session.State.{Exe4cpp, Session, Sessions, reset_both}
use ssp21_cpp.Session.Receive.{validate_session_data}
use ssp21_cpp.Session.Transmit.{format_session_data, format_session_auth}
use ssp21_cpp.Layer.Transmission
use ssp21_cpp.Layer.Transmission.{is_empty}
use ssp21_cpp.Layer.{
  CryptoLayer, Surroundings, set_active, call_close, call_tx_ready, call_rx_ready, start_tx,
}

pub record Virtual (D L : Type 0) : Type 0 where
  pub reset_state_on_close_from_lower : CryptoLayer D L → CryptoLayer D L
  pub supports : Function → Bool
  pub on_parse_error : Function → ParseError → CryptoLayer D L → CryptoLayer D L
  pub on_pre_tx_ready : ℕ → CryptoLayer D L → CryptoLayer D L
  pub on_session_nonce_change : ℕ → ℕ → ℕ → CryptoLayer D L → CryptoLayer D L
  pub on_request : RequestHandshakeBegin → Bytes → ℕ → CryptoLayer D L → CryptoLayer D L
  pub on_reply : ReplyHandshakeBegin → Bytes → ℕ → CryptoLayer D L → CryptoLayer D L
  pub on_error : ReplyHandshakeError → Bytes → ℕ → CryptoLayer D L → CryptoLayer D L
  pub on_auth_session : SessionData → Bytes → ℕ → CryptoLayer D L → CryptoLayer D L

module _ ⦃ser : Ser4cpp⦄ ⦃exe : Exe4cpp⦄ {D L : Type 0} (env : Surroundings D L) where
  -- The outcome, the session that was to send, and the layer.
  abbrev pub auth_sent :
      Bool → CryptoLayer D L → Checked Bytes × Session × Bytes → Bool × Session × CryptoLayer D L
  auth_sent has_payload c (fail ec, session, remainder) = (false, session, c)
  auth_sent has_payload c (pass frame, session, remainder) =
      let tx =
        if has_payload then Transmission.begin_transmit remainder c.tx_state else c.tx_state in
      let r = start_tx env frame (record c { tx_state = tx }) in (r.0, session, r.1)

  unfoldable pub transmit_session_auth :
      ℕ → Session → CryptoLayer D L → Bool × Session × CryptoLayer D L
  transmit_session_auth now session c =
      auth_sent (not (is_empty c.tx_state.remainder)) c
        (format_session_auth env.frame_writer now c.tx_state.remainder session)

  module _ (virtual : Virtual D L) where
    abbrev can_transmit_session_data : CryptoLayer D L → Bool
    can_transmit_session_data c =
        c.sessions.active.valid
        && (env.lower.is_tx_ready c.lower && Transmission.is_ready_tx c.tx_state)

    abbrev nonce_change : ℕ → CryptoLayer D L → CryptoLayer D L
    nonce_change now c =
        virtual.on_session_nonce_change now c.sessions.active.rx_nonce c.sessions.active.tx_nonce c

    -- An error resets the session, and closes the upper layer.
    abbrev transmitted : ℕ → CryptoLayer D L → Checked Bytes × Session × Bytes → CryptoLayer D L
    transmitted now c (fail ec, session, remainder) =
        call_close env (record c { sessions = set_active c.sessions (State.reset session) })
    transmitted now c (pass frame, session, remainder) =
        nonce_change now
          (start_tx env frame (record c {
            sessions = set_active c.sessions session;
            tx_state = Transmission.begin_transmit remainder c.tx_state;
          })).1

    unfoldable pub check_transmit : ℕ → CryptoLayer D L → CryptoLayer D L
    check_transmit now c =
        if not (can_transmit_session_data c)
        then c
        else transmitted now c
            (format_session_data env.frame_writer now c.tx_state.remainder c.sessions.active)

    abbrev is_tx_ready : CryptoLayer D L → Bool
    is_tx_ready c = c.is_open_flag && (c.upper_is_open && Transmission.is_idle c.tx_state)

    unfoldable pub start_tx_from_upper : ℕ → Bytes → CryptoLayer D L → Bool × CryptoLayer D L
    unfolding check_transmit
    start_tx_from_upper now data' c =
        if is_tx_ready c
        then (true, check_transmit now (record c { tx_state = Transmission.initialize data' }))
        else (false, c)

    abbrev received : ℕ → CryptoLayer D L → Checked Bytes × Session → CryptoLayer D L
    received now c (fail ec, session) = record c { sessions = set_active c.sessions session }
    received now c (pass payload, session) = call_rx_ready env (
        nonce_change now
          (record c { sessions = set_active c.sessions session; payload_data = payload }))

    unfoldable pub on_session_data : SessionData → ℕ → CryptoLayer D L → CryptoLayer D L
    on_session_data msg now c =
        received now c (validate_session_data msg now c.payload_size c.sessions.active)

    abbrev on_message : SessionData → Bytes → ℕ → CryptoLayer D L → CryptoLayer D L
    on_message msg raw_data now c =
        if msg.metadata.nonce == 0
        then virtual.on_auth_session msg raw_data now c
        else on_session_data msg now c

    -- A message that does not parse is reported.
    abbrev handle_message :
        {M : Type 0}
        → Function
        → Parsed M
        → (M → CryptoLayer D L → CryptoLayer D L)
        → CryptoLayer D L
        → CryptoLayer D L
    handle_message function (err e) on c = virtual.on_parse_error function e c
    handle_message function (ok msg) on c = on msg c

    abbrev dispatch : Function → Bytes → ℕ → CryptoLayer D L → CryptoLayer D L
    dispatch Function.request_handshake_begin message now c =
        handle_message Function.request_handshake_begin (request_handshake_begin_read message)
          (λ msg. virtual.on_request msg message now) c
    dispatch Function.reply_handshake_begin message now c =
        handle_message Function.reply_handshake_begin (reply_handshake_begin_read message)
          (λ msg. virtual.on_reply msg message now) c
    dispatch Function.reply_handshake_error message now c =
        handle_message Function.reply_handshake_error (reply_handshake_error_read message)
          (λ msg. virtual.on_error msg message now) c
    dispatch Function.session_data message now c =
        handle_message Function.session_data (session_data_read message)
          (λ msg. on_message msg message now) c
    dispatch Function.undefined message now c = c

    unfoldable pub process : ℕ → Bytes → CryptoLayer D L → CryptoLayer D L
    unfolding on_session_data
    process now [] c = c
    process now (raw_function ∷ message) c =
        let function = function_spec.from_type raw_function in
        if not (virtual.supports function)
        then c
        else dispatch function (raw_function ∷ message) now c

    abbrev processed : ℕ → CryptoLayer D L → Bytes × L → Bool × CryptoLayer D L
    processed now c ([], lower) = (false, record c { lower = lower })
    processed now c (b ∷ message, lower) =
        (true, process now (b ∷ message) (record c { lower = lower }))

    unfoldable pub try_read_one_from_lower : ℕ → CryptoLayer D L → Bool × CryptoLayer D L
    unfolding process
    try_read_one_from_lower now c =
        if not (env.lower.is_tx_ready c.lower && is_empty c.payload_data)
        then (false, c)
        else processed now c (env.lower.start_rx_from_upper c.lower)

    -- The loop, with `fuel` rounds; `none` where they are not enough.
    unfoldable pub try_read_from_lower : ℕ → ℕ → CryptoLayer D L → Option (CryptoLayer D L)
    unfolding try_read_one_from_lower
    try_read_from_lower zero now c = none
    try_read_from_lower (suc fuel) now c =
        let r = try_read_one_from_lower now c in
        elim r.0 [ true ↦ try_read_from_lower fuel now r.1 | false ↦ some r.1 ]

    abbrev discard_rx_data : CryptoLayer D L → CryptoLayer D L
    discard_rx_data c = record c { payload_data = [] }

    -- `start_rx_from_upper_impl`
    abbrev pub start_rx_from_upper_impl : ℕ → ℕ → CryptoLayer D L → Option (Bytes × CryptoLayer D L)
    start_rx_from_upper_impl fuel now c = elim c.payload_data [
      | [] ↦ elim (try_read_from_lower fuel now c) [ none ↦ none | some next ↦ some ([], next) ]
      | b ∷ bytes ↦ some (b ∷ bytes, c)
    ]

    unfoldable pub on_lower_close : CryptoLayer D L → CryptoLayer D L
    on_lower_close c =
        if not c.is_open_flag
        then c
        else let c1 = virtual.reset_state_on_close_from_lower (record c { is_open_flag = false }) in
          let c2 =
            call_close env (record c1 { sessions = reset_both c1.sessions; payload_data = [] }) in
          record c2 { tx_state = Transmission.reset; processing = false }

    -- `on_lower_tx_ready_impl`, from the end of the transmission to the reading loop.
    abbrev tx_complete : ℕ → CryptoLayer D L → CryptoLayer D L
    tx_complete now c =
        let r = Transmission.on_tx_complete c.tx_state in
        let c1 = virtual.on_pre_tx_ready now (record c { tx_state = r.1 }) in
        if r.0 then call_tx_ready env c1 else c1

    unfoldable pub on_lower_tx_ready : ℕ → ℕ → CryptoLayer D L → Option (CryptoLayer D L)
    unfolding try_read_from_lower check_transmit
    on_lower_tx_ready fuel now c =
        if not c.is_open_flag
        then some c
        else (elim (try_read_from_lower fuel now (tx_complete now c)) [
          | none ↦ none
          | some next ↦ some (check_transmit now next)
        ])

    unfoldable pub on_lower_rx_ready : ℕ → ℕ → CryptoLayer D L → Option (CryptoLayer D L)
    unfolding try_read_from_lower
    on_lower_rx_ready fuel now c = if c.is_open_flag then try_read_from_lower fuel now c else some c
