-- ===== src/Layer/Initiator/Activation.antt =====
-- When an initiator takes a new session.
use ssp21_cpp.Base.{
  ℕ, ◌≡◌, refl, ap, sym, ◌∙◌, ◌⊎◌, inl, inr, Bool, true, false, not, Bytes, Option, none, some,
}
use ssp21_cpp.Ser.{Ser4cpp}
use ssp21_cpp.Wire.{FormatError, ok, insufficient_space}
use ssp21_cpp.Wire.Messages.Bodies.{ReplyHandshakeBegin, SessionData}
use ssp21_cpp.Session.{Checked, pass, fail, equal_to_zero, SessionStatistics}
use ssp21_cpp.Session.State.{Exe4cpp, Session, Sessions}
use ssp21_cpp.Session.Receive.{validate_session_auth}
use ssp21_cpp.Session.Receive.Checks.{IsFresh, payload_of, func-pass, take_nonce}
use ssp21_cpp.Session.Transmit.{WriteResult, format_session_auth}
use ssp21_cpp.Layer.{CryptoLayer, Surroundings, pending_of, call_open}
use ssp21_cpp.Layer.Transmission.{is_empty}
use ssp21_cpp.Layer.Crypto.{transmit_session_auth, auth_sent}
use ssp21_cpp.Layer.Initiator.{
  HandshakeState, idle, wait_for_begin_reply, wait_for_auth_reply, wait_for_retry,
  bad_configuration, cancelled, Params, SessionLimits, IInitiatorHandshake, Initiator, Event,
  handshake_required, response_timed_out, retry_timed_out, reply, error, auth, with_timer,
  with_pending, with_handshake, Handled, request_written, init_result, idle_on_handshake_required,
  auth_transmitted, session_initialized, wait_for_begin_reply_on_reply, deliver, activated,
  auth_validated, wait_for_auth_reply_on_auth, state_on_handshake_required, state_on_reply,
  state_on_error, state_on_auth, state_on_response_timeout, state_on_retry_timeout, handle,
}

-- A session but for its statistics.
abbrev pub with_statistics : Session → SessionStatistics → Session
with_statistics s statistics = record s { statistics = statistics }

module _ ⦃ser : Ser4cpp⦄ ⦃exe : Exe4cpp⦄ {H L : Type 0} (env : Surroundings (Initiator H) L)
    (handshakes : IInitiatorHandshake H) (params : Params) (limits : SessionLimits) where
  -- The active session stays.
  abbrev pub Keeps : CryptoLayer (Initiator H) L → CryptoLayer (Initiator H) L → Type 0
  Keeps c next =
      next.sessions.active ≡ with_statistics c.sessions.active next.sessions.active.statistics

  -- A message has authenticated the pending session, which becomes the active one.
  pub record IsActivation (msg : SessionData) (now : ℕ) (c : CryptoLayer (Initiator H) L)
      (r : Handled env handshakes params limits) : Type 0 where
    pub state : c.derived.handshake_state ≡ wait_for_auth_reply
    pub payload : Bytes
    pub valid : c.sessions.pending.valid ≡ true
    pub authentic : payload_of msg c.payload_size c.sessions.pending ≡ pass payload
    pub fresh : IsFresh equal_to_zero msg now c.sessions.pending
    pub result :
        r
        ≡ deliver env handshakes params limits payload (
            call_open env (
              activated env handshakes params limits
                (take_nonce msg (pending_of c.sessions))
                (with_timer cancelled c)))

  request_written-Keeps :
      (now : ℕ) (c : CryptoLayer (Initiator H) L) (result : WriteResult) (e : FormatError)
      → result.err ≡ e
      → Keeps c (request_written env handshakes params limits now c result).1
  request_written-Keeps now c result ok e = rw e refl
  request_written-Keeps now c result insufficient_space e = rw e refl

  init_result-Keeps :
      (now : ℕ) (c : CryptoLayer (Initiator H) L) (r : Option (Bytes × Bytes) × H)
      → Keeps c (init_result env handshakes params limits now c r).1
  init_result-Keeps now c (none, handshake) = refl
  init_result-Keeps now c (some mode, handshake) =
      request_written-Keeps now (with_handshake handshake c) (env.frame_writer.write _) _ refl

  auth_sent-sessions :
      (b : Bool) (c : CryptoLayer (Initiator H) L) (r : Checked Bytes × Session × Bytes)
      → (auth_sent env b c r).2.sessions ≡ c.sessions
  auth_sent-sessions b c (pass frame, session, remainder) = refl
  auth_sent-sessions b c (fail ec, session, remainder) = refl

  auth_transmitted-Keeps :
      (c : CryptoLayer (Initiator H) L) (r : Bool × Session × CryptoLayer (Initiator H) L)
      → Keeps c r.2
      → Keeps c (auth_transmitted env handshakes params limits r).1
  auth_transmitted-Keeps c (true, session, next) K =
      ap (λ (s : Session). with_statistics s session.statistics) K
  auth_transmitted-Keeps c (false, session, next) K =
      ap (λ (s : Session). with_statistics s session.statistics) K

  transmit_session_auth-sessions :
      (now : ℕ) (session : Session) (c : CryptoLayer (Initiator H) L)
      → (transmit_session_auth env now session c).2.sessions ≡ c.sessions
  unfolding transmit_session_auth
  transmit_session_auth-sessions now session c =
      auth_sent-sessions (not (is_empty c.tx_state.remainder)) c
        (format_session_auth env.frame_writer now c.tx_state.remainder session)

  session_initialized-Keeps :
      (now : ℕ) (c : CryptoLayer (Initiator H) L) (r : Bool × H × Session)
      → Keeps c (session_initialized env handshakes params limits now c r).1
  session_initialized-Keeps now c (true, handshake, session) =
      let next = with_pending session (with_handshake handshake c) in
      let sent = transmit_session_auth env now session next in
      let same : sent.2.sessions.active ≡ with_statistics c.sessions.active session.statistics =
        ap (λ (s : Sessions). s.active) (transmit_session_auth-sessions now session next) in
      auth_transmitted-Keeps c sent (
        same
        ∙ ap (with_statistics c.sessions.active) (sym (ap (λ (s : Session). s.statistics) same)))
  session_initialized-Keeps now c (false, handshake, session) = refl

  on_handshake_required-Keeps :
      (s : HandshakeState) (now : ℕ) (c : CryptoLayer (Initiator H) L)
      → Keeps c (state_on_handshake_required env handshakes params limits s now c).1
  unfolding state_on_handshake_required idle_on_handshake_required
  on_handshake_required-Keeps idle now c = by_ready (env.lower.is_tx_ready c.lower) refl
    where
      by_ready :
          (b : Bool)
          → env.lower.is_tx_ready c.lower ≡ b
          → Keeps c (idle_on_handshake_required env handshakes params limits now c).1
      by_ready true e =
          rw e (init_result-Keeps now c (handshakes.initialize_new_handshake c.derived.handshake))
      by_ready false e = rw e refl
  on_handshake_required-Keeps wait_for_begin_reply now c = refl
  on_handshake_required-Keeps wait_for_auth_reply now c = refl
  on_handshake_required-Keeps wait_for_retry now c = refl
  on_handshake_required-Keeps bad_configuration now c = refl

  on_reply-Keeps :
      (s : HandshakeState) (msg : ReplyHandshakeBegin) (bytes : Bytes) (now : ℕ)
      (c : CryptoLayer (Initiator H) L)
      → Keeps c (state_on_reply env handshakes params limits s msg bytes now c).1
  unfolding state_on_reply wait_for_begin_reply_on_reply
  on_reply-Keeps idle msg bytes now c = refl
  on_reply-Keeps wait_for_begin_reply msg bytes now c =
      session_initialized-Keeps now (with_timer cancelled c) (
        handshakes.initialize_session msg bytes limits now c.derived.handshake
          (pending_of c.sessions))
  on_reply-Keeps wait_for_auth_reply msg bytes now c = refl
  on_reply-Keeps wait_for_retry msg bytes now c = refl
  on_reply-Keeps bad_configuration msg bytes now c = refl

  on_error-Keeps :
      (s : HandshakeState) (c : CryptoLayer (Initiator H) L)
      → Keeps c (state_on_error env handshakes params limits s c).1
  unfolding state_on_error
  on_error-Keeps idle c = refl
  on_error-Keeps wait_for_begin_reply c = refl
  on_error-Keeps wait_for_auth_reply c = refl
  on_error-Keeps wait_for_retry c = refl
  on_error-Keeps bad_configuration c = refl

  on_response_timeout-Keeps :
      (s : HandshakeState) (c : CryptoLayer (Initiator H) L)
      → Keeps c (state_on_response_timeout env handshakes params limits s c).1
  unfolding state_on_response_timeout
  on_response_timeout-Keeps idle c = refl
  on_response_timeout-Keeps wait_for_begin_reply c = refl
  on_response_timeout-Keeps wait_for_auth_reply c = refl
  on_response_timeout-Keeps wait_for_retry c = refl
  on_response_timeout-Keeps bad_configuration c = refl

  on_retry_timeout-Keeps :
      (s : HandshakeState) (c : CryptoLayer (Initiator H) L)
      → Keeps c (state_on_retry_timeout env handshakes params limits s c).1
  unfolding state_on_retry_timeout
  on_retry_timeout-Keeps idle c = refl
  on_retry_timeout-Keeps wait_for_begin_reply c = refl
  on_retry_timeout-Keeps wait_for_auth_reply c = refl
  on_retry_timeout-Keeps wait_for_retry c = refl
  on_retry_timeout-Keeps bad_configuration c = refl

  auth_validated_cases :
      (msg : SessionData) (now : ℕ) (c : CryptoLayer (Initiator H) L) (o : Checked Bytes × Session)
      → c.derived.handshake_state ≡ wait_for_auth_reply
      → validate_session_auth msg now c.payload_size (pending_of c.sessions) ≡ o
      → Keeps c (auth_validated env handshakes params limits (with_timer cancelled c) o).1
        ⊎ IsActivation msg now c
            (auth_validated env handshakes params limits (with_timer cancelled c) o)
  unfolding validate_session_auth payload_of
  auth_validated_cases msg now c (fail ec, session) e ran = inl refl
  auth_validated_cases msg now c (pass payload, session) e ran =
      let (valid, authentic, fresh, next) =
        func-pass msg now c.payload_size equal_to_zero (pending_of c.sessions) session payload
          ran in
      inr (record {
        state = e;
        payload = payload;
        valid = valid;
        authentic = authentic;
        fresh = record {
          no_rollback = fresh.no_rollback;
          in_session = fresh.in_session;
          alive = fresh.alive;
          max_nonce = fresh.max_nonce;
          verified = fresh.verified;
        };
        result =
            ap
              (λ (s : Session).
                deliver env handshakes params limits payload (
                  call_open env
                    (activated env handshakes params limits s (with_timer cancelled c))))
              next;
      })

  on_auth_cases :
      (s : HandshakeState) (msg : SessionData) (now : ℕ) (c : CryptoLayer (Initiator H) L)
      → c.derived.handshake_state ≡ s
      → Keeps c (state_on_auth env handshakes params limits s msg now c).1
        ⊎ IsActivation msg now c (state_on_auth env handshakes params limits s msg now c)
  unfolding state_on_auth wait_for_auth_reply_on_auth
  on_auth_cases idle msg now c e = inl refl
  on_auth_cases wait_for_begin_reply msg now c e = inl refl
  on_auth_cases wait_for_auth_reply msg now c e =
      auth_validated_cases msg now c
        (validate_session_auth msg now c.payload_size (pending_of c.sessions)) e refl
  on_auth_cases wait_for_retry msg now c e = inl refl
  on_auth_cases bad_configuration msg now c e = inl refl

  -- The initiator's active session stays, but for its statistics, through every event but one: a
  -- message for the pending session, in the state that waits for it. The pending session is then
  -- valid, the message decrypts under its receiving key and is fresh for it with the nonce zero; the
  -- pending session becomes the active one, with the message counted, before the upper layer is
  -- opened and given the payload.
  pub handle-IsActivation :
      (e : Event) (now : ℕ) (c : CryptoLayer (Initiator H) L)
      → Keeps c (handle env handshakes params limits e now c).1
        ⊎ ((msg : SessionData) × (e ≡ auth msg)
            × IsActivation msg now c (handle env handshakes params limits e now c))
  unfolding handle
  handle-IsActivation handshake_required now c = inl (on_handshake_required-Keeps _ now c)
  handle-IsActivation response_timed_out now c = inl (on_response_timeout-Keeps _ c)
  handle-IsActivation retry_timed_out now c = inl (on_retry_timeout-Keeps _ c)
  handle-IsActivation (reply msg bytes) now c = inl (on_reply-Keeps _ msg bytes now c)
  handle-IsActivation (error msg) now c = inl (on_error-Keeps _ c)
  handle-IsActivation (auth msg) now c =
      elim (on_auth_cases c.derived.handshake_state msg now c refl) [
        | inl kept ↦ inl kept
        | inr activation ↦ inr (msg, refl, activation)
      ]
