-- ===== src/Layer/Responder.antt =====
-- cpp/libs/ssp21/src/crypto/Responder.cpp. Its handshake (IResponderHandshake.h) is a parameter, over
-- a state of its own.
pub mod Acceptance
use ssp21_cpp.Base.{ℕ, Bool, true, false, not, Bytes, [], ◌∷◌, ◌==◌, if◌then◌else◌}
use ssp21_cpp.Ser.{Ser4cpp}
use ssp21_cpp.Wire.{ParseError, FormatError, ok, insufficient_space}
use ssp21_cpp.Wire.Enums.Handshake.{Function, HandshakeError}
use ssp21_cpp.Wire.Messages.Bodies.{
  RequestHandshakeBegin, ReplyHandshakeError, reply_handshake_error_write, SessionData,
}
use ssp21_cpp.Session.{Checked, pass, fail}
use ssp21_cpp.Session.State
use ssp21_cpp.Session.State.{Exe4cpp, Session, reset_both, activate_pending}
use ssp21_cpp.Session.Receive.{validate_session_auth}
use ssp21_cpp.Session.Transmit.{FrameWriter, WriteResult}
use ssp21_cpp.Layer.{
  CryptoLayer, Surroundings, pending_of, set_pending, set_active, call_open, call_rx_ready,
  start_tx,
}
use ssp21_cpp.Layer.Crypto.{Virtual, transmit_session_auth}
use ssp21_cpp.Layer.Initiator.{get_version}

-- `IResponderHandshake::Result`: the reply's frame, or the error.
pub data Result : Type 0 where
  success : Bytes → Result
  failure : HandshakeError → Result

-- `process(msg, raw_data, now, writer, session)`
pub record IResponderHandshake (H : Type 0) : Type 0 where
  pub process : RequestHandshakeBegin → Bytes → ℕ → FrameWriter → H → Session → Result × H × Session

-- consts::crypto::protocol_major_version
abbrev protocol_major_version : ℕ
protocol_major_version = 0

module _ ⦃ser : Ser4cpp⦄ ⦃exe : Exe4cpp⦄ {H L : Type 0} (env : Surroundings H L)
    (handshakes : IResponderHandshake H) where
  abbrev pub error_written : CryptoLayer H L → WriteResult → CryptoLayer H L
  error_written c res = elim res.err [ ok ↦ (start_tx env res.frame c).1 | insufficient_space ↦ c ]

  unfoldable pub reply_with_handshake_error : HandshakeError → CryptoLayer H L → CryptoLayer H L
  reply_with_handshake_error e c =
      let msg : ReplyHandshakeError = record { version = get_version; handshake_error = e } in
      error_written c (env.frame_writer.write (reply_handshake_error_write msg))

  abbrev pub processed : CryptoLayer H L → Result × H × Session → CryptoLayer H L
  processed c (result, handshake, session) =
      let next = record c { derived = handshake; sessions = set_pending c.sessions session } in
      elim result [
        | failure e ↦ reply_with_handshake_error e next
        | success reply_data ↦ (start_tx env reply_data next).1
      ]

  unfoldable pub on_request : RequestHandshakeBegin → Bytes → ℕ → CryptoLayer H L → CryptoLayer H L
  unfolding reply_with_handshake_error
  on_request msg raw_msg now c =
      if not (msg.version.major_version == protocol_major_version)
      then reply_with_handshake_error HandshakeError.unsupported_version c
      else processed c
          (handshakes.process msg raw_msg now env.frame_writer c.derived (pending_of c.sessions))

  abbrev pub deliver : Bytes → CryptoLayer H L → CryptoLayer H L
  deliver [] c = c
  deliver (b ∷ payload) c = call_rx_ready env (record c { payload_data = b ∷ payload })

  -- The end of `on_auth_session`, behind the answer of the new session.
  abbrev pub auth_transmitted : Bytes → Bool × Session × CryptoLayer H L → CryptoLayer H L
  auth_transmitted payload (sent, session, c) =
      let next = record c { sessions = set_active c.sessions session } in
      if not sent then next else deliver payload (call_open env next)

  abbrev pub activated : Session → CryptoLayer H L → CryptoLayer H L
  activated session c = record c { sessions = activate_pending (set_pending c.sessions session) }

  unfoldable pub auth_validated : ℕ → CryptoLayer H L → Checked Bytes × Session → CryptoLayer H L
  auth_validated now c (fail ec, session) = record c { sessions = set_pending c.sessions session }
  auth_validated now c (pass payload, session) =
      let next = activated session c in
      auth_transmitted payload (transmit_session_auth env now next.sessions.active next)

  unfoldable pub on_auth_session : SessionData → Bytes → ℕ → CryptoLayer H L → CryptoLayer H L
  unfolding reply_with_handshake_error auth_validated
  on_auth_session msg raw_data now c =
      if not c.sessions.pending.valid
      then reply_with_handshake_error HandshakeError.no_prior_handshake_begin c
      else auth_validated now c
          (validate_session_auth msg now c.payload_size (pending_of c.sessions))

  abbrev supports : Function → Bool
  supports Function.request_handshake_begin = true
  supports Function.session_data = true
  supports _ = false

  abbrev on_parse_error : Function → ParseError → CryptoLayer H L → CryptoLayer H L
  on_parse_error Function.request_handshake_begin e c =
      reply_with_handshake_error HandshakeError.bad_message_format c
  on_parse_error function e c = c

  -- The virtual functions of `CryptoLayer`.
  unfoldable pub virtual : Virtual H L
  unfolding on_request on_auth_session
  virtual = record {
    reset_state_on_close_from_lower = λ c. record c { sessions = reset_both c.sessions };
    supports = supports;
    on_parse_error = on_parse_error;
    on_pre_tx_ready = λ now c. c;
    on_session_nonce_change = λ now rx_nonce tx_nonce c. c;
    on_request = on_request;
    on_reply = λ msg raw_data now c. c;
    on_error = λ msg raw_data now c. c;
    on_auth_session = on_auth_session;
  }
