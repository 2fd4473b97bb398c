-- ===== src/Layer/Initiator.antt =====
-- cpp/libs/ssp21/src/crypto/Initiator.cpp and InitiatorHandshakeStates.cpp. A handler of a state
-- gives the next state, which is stored once it is done, as the code assigns what it returns.
pub mod Diagram
pub mod Retry
pub mod Activation
use ssp21_cpp.Base.{
  ℕ, ◌+◌, Bool, true, false, not, Bytes, [], ◌∷◌, Option, none, some, leb, ltb, if◌then◌else◌,
}
use ssp21_cpp.Ser.{Ser4cpp}
use ssp21_cpp.Wire.{FormatError, ok, insufficient_space}
use ssp21_cpp.Wire.Enums.Handshake.{Function, HandshakeMode}
use ssp21_cpp.Wire.Structs.Handshake.{Version, CryptoSpec, SessionConstraints}
use ssp21_cpp.Wire.Messages.Bodies.{
  RequestHandshakeBegin, request_handshake_begin_write, ReplyHandshakeBegin, ReplyHandshakeError,
  SessionData,
}
use ssp21_cpp.Session.{Checked, pass, fail}
use ssp21_cpp.Session.State.{Exe4cpp, milliseconds, Session, activate_pending}
use ssp21_cpp.Session.Receive.{validate_session_auth}
use ssp21_cpp.Session.Transmit.{WriteResult}
use ssp21_cpp.Layer.{
  CryptoLayer, Surroundings, pending_of, set_pending, call_open, call_rx_ready, start_tx,
}
use ssp21_cpp.Layer.Crypto.{Virtual, transmit_session_auth}

-- `IHandshakeState::Enum`
pub data HandshakeState : Type 0 where
  idle wait_for_begin_reply wait_for_auth_reply wait_for_retry bad_configuration : HandshakeState

-- What `response_and_retry_timer` has been started for, last, with its timeout.
pub data Timer : Type 0 where
  cancelled : Timer
  response retry : ℕ → Timer

-- `InitiatorConfig::Params`
pub record Params : Type 0 where
  pub response_timeout : ℕ
  pub retry_timeout : ℕ
  pub nonce_renegotiation_trigger_value : ℕ
  pub session_time_renegotiation_trigger_ms : ℕ

pub record SessionLimits : Type 0 where
  pub max_nonce_value : ℕ
  pub max_session_time_ms : ℕ

-- IInitiatorHandshake.h, over the state of a handshake. `none` is an `InitResult` that failed.
pub record IInitiatorHandshake (H : Type 0) : Type 0 where
  pub get_crypto_suite : CryptoSpec
  pub get_handshake_mode : HandshakeMode
  pub initialize_new_handshake : H → Option (Bytes × Bytes) × H
  pub finalize_request_tx : Bytes → ℕ → H → H
  pub initialize_session :
      ReplyHandshakeBegin → Bytes → SessionLimits → ℕ → H → Session → Bool × H × Session

-- The members of `Initiator`. `session_timeout_timer` is the time that it has been started for.
pub record Initiator (H : Type 0) : Type 0 where
  pub handshake_state : HandshakeState
  pub handshake : H
  pub response_and_retry_timer : Timer
  pub session_timeout_timer : Option ℕ
  pub handshake_required : Bool

-- version::get
abbrev pub get_version : Version
get_version = record { major_version = 0; minor_version = 1 }

abbrev max : ℕ → ℕ → ℕ
max a b = if ltb a b then b else a

module _ {H L : Type 0} where
  abbrev pub with_timer : Timer → CryptoLayer (Initiator H) L → CryptoLayer (Initiator H) L
  with_timer timer c = record c { derived = record c.derived { response_and_retry_timer = timer } }

  abbrev pub require_handshake : Bool → CryptoLayer (Initiator H) L → CryptoLayer (Initiator H) L
  require_handshake required c = record c {
    derived = record c.derived { handshake_required = required };
  }

  abbrev pub with_handshake : H → CryptoLayer (Initiator H) L → CryptoLayer (Initiator H) L
  with_handshake handshake c = record c { derived = record c.derived { handshake = handshake } }

  abbrev pub with_session_timer :
      Option ℕ → CryptoLayer (Initiator H) L → CryptoLayer (Initiator H) L
  with_session_timer timer c = record c {
    derived = record c.derived { session_timeout_timer = timer };
  }

  abbrev pub with_pending : Session → CryptoLayer (Initiator H) L → CryptoLayer (Initiator H) L
  with_pending session c = record c { sessions = set_pending c.sessions session }

-- What the initiator answers to.
pub data Event : Type 0 where
  handshake_required response_timed_out retry_timed_out : Event
  reply : ReplyHandshakeBegin → Bytes → Event
  error : ReplyHandshakeError → Event
  auth : SessionData → Event

module _ ⦃ser : Ser4cpp⦄ ⦃exe : Exe4cpp⦄ {H L : Type 0} (env : Surroundings (Initiator H) L)
    (handshakes : IInitiatorHandshake H) (params : Params) (session_limits : SessionLimits) where
  -- A handler leaves the next state and the layer.
  abbrev pub Handled : Type 0
  Handled = HandshakeState × CryptoLayer (Initiator H) L

  abbrev pub retry_later : CryptoLayer (Initiator H) L → Handled
  retry_later c = (wait_for_retry, with_timer (retry params.retry_timeout) c)

  abbrev pub request_of : Bytes × Bytes → RequestHandshakeBegin
  request_of (mode_ephemeral, mode_data) = record {
    version = get_version;
    spec = handshakes.get_crypto_suite;
    constraints = record {
      max_nonce = session_limits.max_nonce_value;
      max_session_duration = session_limits.max_session_time_ms;
    };
    handshake_mode = handshakes.get_handshake_mode;
    mode_ephemeral = mode_ephemeral;
    mode_data = mode_data;
  }

  -- The request, once it has been written.
  abbrev pub request_written : ℕ → CryptoLayer (Initiator H) L → WriteResult → Handled
  request_written now c result = elim result.err [
    | insufficient_space ↦ (bad_configuration, c)
    | ok ↦
        let handshake = handshakes.finalize_request_tx result.written now c.derived.handshake in
        let sent = start_tx env result.frame (with_handshake handshake c) in
        (wait_for_begin_reply, with_timer (response params.response_timeout) sent.1)
  ]

  abbrev pub init_result : ℕ → CryptoLayer (Initiator H) L → Option (Bytes × Bytes) × H → Handled
  init_result now c (none, handshake) = retry_later (with_handshake handshake c)
  init_result now c (some mode, handshake) =
      request_written now (with_handshake handshake c)
        (env.frame_writer.write (request_handshake_begin_write (request_of mode)))

  -- `Idle::on_handshake_required`
  pub idle_on_handshake_required : ℕ → CryptoLayer (Initiator H) L → Handled
  idle_on_handshake_required now c =
      if not (env.lower.is_tx_ready c.lower)
      then (idle, require_handshake true c)
      else init_result now c (handshakes.initialize_new_handshake c.derived.handshake)

  abbrev pub auth_transmitted : Bool × Session × CryptoLayer (Initiator H) L → Handled
  auth_transmitted (sent, session, c) = if not sent then retry_later (with_pending session c) else (
    wait_for_auth_reply,
    with_timer (response params.response_timeout) (with_pending session c),
  )

  abbrev pub session_initialized : ℕ → CryptoLayer (Initiator H) L → Bool × H × Session → Handled
  session_initialized now c (initialized, handshake, session) =
      if not initialized
      then retry_later (with_pending session (with_handshake handshake c))
      else auth_transmitted (
          transmit_session_auth env now session (with_pending session (with_handshake handshake c)))

  -- `WaitForBeginReply::on_reply_message`
  pub wait_for_begin_reply_on_reply :
      ReplyHandshakeBegin → Bytes → ℕ → CryptoLayer (Initiator H) L → Handled
  wait_for_begin_reply_on_reply msg msg_bytes now c =
      session_initialized now (with_timer cancelled c) (
        handshakes.initialize_session msg msg_bytes session_limits now c.derived.handshake
          (pending_of c.sessions))

  -- The end of `WaitForAuthReply::on_auth_message`, behind the opening of the upper layer.
  abbrev pub deliver : Bytes → CryptoLayer (Initiator H) L → Handled
  deliver [] c = (idle, c)
  deliver (b ∷ payload) c = (idle, call_rx_ready env (record c { payload_data = b ∷ payload }))

  unfoldable pub activated : Session → CryptoLayer (Initiator H) L → CryptoLayer (Initiator H) L
  activated session c =
      let sessions = activate_pending (set_pending c.sessions session) in
      let session_timeout_abs_time =
        sessions.active.parameters.session_start
        + milliseconds params.session_time_renegotiation_trigger_ms in
      with_session_timer (some session_timeout_abs_time)
        (require_handshake false (record c { sessions = sessions }))

  abbrev pub auth_validated : CryptoLayer (Initiator H) L → Checked Bytes × Session → Handled
  auth_validated c (fail ec, session) = retry_later (with_pending session c)
  auth_validated c (pass payload, session) = deliver payload (call_open env (activated session c))

  -- `WaitForAuthReply::on_auth_message`
  pub wait_for_auth_reply_on_auth : SessionData → ℕ → CryptoLayer (Initiator H) L → Handled
  unfolding activated
  wait_for_auth_reply_on_auth msg now c =
      auth_validated (with_timer cancelled c)
        (validate_session_auth msg now c.payload_size (pending_of c.sessions))

  -- The handlers of `IHandshakeState`, which the states override.
  unfoldable pub state_on_handshake_required :
      HandshakeState → ℕ → CryptoLayer (Initiator H) L → Handled
  unfolding idle_on_handshake_required
  state_on_handshake_required idle now c = idle_on_handshake_required now c
  state_on_handshake_required state now c = (state, require_handshake true c)

  unfoldable pub state_on_reply :
      HandshakeState → ReplyHandshakeBegin → Bytes → ℕ → CryptoLayer (Initiator H) L → Handled
  unfolding wait_for_begin_reply_on_reply
  state_on_reply wait_for_begin_reply msg msg_bytes now c =
      wait_for_begin_reply_on_reply msg msg_bytes now c
  state_on_reply state msg msg_bytes now c = (state, c)

  unfoldable pub state_on_error : HandshakeState → CryptoLayer (Initiator H) L → Handled
  state_on_error wait_for_begin_reply c = retry_later (with_timer cancelled c)
  state_on_error wait_for_auth_reply c = retry_later (with_timer cancelled c)
  state_on_error state c = (state, c)

  unfoldable pub state_on_auth :
      HandshakeState → SessionData → ℕ → CryptoLayer (Initiator H) L → Handled
  unfolding wait_for_auth_reply_on_auth
  state_on_auth wait_for_auth_reply msg now c = wait_for_auth_reply_on_auth msg now c
  state_on_auth state msg now c = (state, c)

  unfoldable pub state_on_response_timeout : HandshakeState → CryptoLayer (Initiator H) L → Handled
  state_on_response_timeout wait_for_begin_reply c = retry_later c
  state_on_response_timeout wait_for_auth_reply c = retry_later c
  state_on_response_timeout state c = (state, c)

  unfoldable pub state_on_retry_timeout : HandshakeState → CryptoLayer (Initiator H) L → Handled
  state_on_retry_timeout wait_for_retry c = (idle, c)
  state_on_retry_timeout state c = (state, c)

  -- `this->handshake_state = ...`
  abbrev pub store : Handled → CryptoLayer (Initiator H) L
  store (state, c) = record c { derived = record c.derived { handshake_state = state } }

  -- The handler of an event in the present state.
  unfoldable pub handle : Event → ℕ → CryptoLayer (Initiator H) L → Handled
  unfolding state_on_handshake_required state_on_reply state_on_error state_on_auth
      state_on_response_timeout state_on_retry_timeout
  handle handshake_required now c = state_on_handshake_required c.derived.handshake_state now c
  handle (reply msg msg_bytes) now c = state_on_reply c.derived.handshake_state msg msg_bytes now c
  handle (error msg) now c = state_on_error c.derived.handshake_state c
  handle (auth msg) now c = state_on_auth c.derived.handshake_state msg now c
  handle response_timed_out now c = state_on_response_timeout c.derived.handshake_state c
  handle retry_timed_out now c = state_on_retry_timeout c.derived.handshake_state c

  -- `on_handshake_required`
  unfoldable pub on_handshake_required :
      ℕ → CryptoLayer (Initiator H) L → CryptoLayer (Initiator H) L
  unfolding handle
  on_handshake_required now c = store (handle handshake_required now c)

  -- The timers' callbacks.
  unfoldable pub on_response_timer : ℕ → CryptoLayer (Initiator H) L → CryptoLayer (Initiator H) L
  unfolding handle
  on_response_timer now c = store (handle response_timed_out now c)

  unfoldable pub on_retry_timer : ℕ → CryptoLayer (Initiator H) L → CryptoLayer (Initiator H) L
  unfolding handle
  on_retry_timer now c = on_handshake_required now (store (handle retry_timed_out now c))

  -- IUpperLayer.h's `on_lower_open`, over `on_lower_open_impl`.
  unfoldable pub on_lower_open : ℕ → CryptoLayer (Initiator H) L → CryptoLayer (Initiator H) L
  on_lower_open now c =
      if c.is_open_flag then c else on_handshake_required now (record c { is_open_flag = true })

  abbrev supports : Function → Bool
  supports Function.reply_handshake_begin = true
  supports Function.reply_handshake_error = true
  supports Function.session_data = true
  supports _ = false

  abbrev reset_state : CryptoLayer (Initiator H) L → CryptoLayer (Initiator H) L
  reset_state c = record c {
    derived = record c.derived {
      handshake_state = idle;
      response_and_retry_timer = cancelled;
      session_timeout_timer = none;
      handshake_required = false;
    };
  }

  abbrev nonce_change : ℕ → ℕ → ℕ → CryptoLayer (Initiator H) L → CryptoLayer (Initiator H) L
  nonce_change now rx_nonce tx_nonce c =
      if leb params.nonce_renegotiation_trigger_value (max tx_nonce rx_nonce)
      then on_handshake_required now (with_session_timer none c)
      else c

  abbrev pre_tx_ready : ℕ → CryptoLayer (Initiator H) L → CryptoLayer (Initiator H) L
  pre_tx_ready now c = if c.derived.handshake_required then on_handshake_required now c else c

  -- The virtual functions of `CryptoLayer`.
  unfoldable pub virtual : Virtual (Initiator H) L
  unfolding handle on_handshake_required
  virtual = record {
    reset_state_on_close_from_lower = reset_state;
    supports = supports;
    on_parse_error = λ function e c. c;
    on_pre_tx_ready = pre_tx_ready;
    on_session_nonce_change = nonce_change;
    on_request = λ msg raw_data now c. c;
    on_reply = λ msg raw_data now c. store (handle (reply msg raw_data) now c);
    on_error = λ msg raw_data now c. store (handle (error msg) now c);
    on_auth_session = λ msg raw_data now c. store (handle (auth msg) now c);
  }
