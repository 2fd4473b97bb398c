-- ===== src/Layer/Initiator/Diagram.antt =====
-- The states of the initiator's handshake: the moves that they make, and the timer that runs in each.
use ssp21_cpp.Base.{ℕ, ◌≡◌, refl, Bool, true, false, Bytes, [], ◌∷◌, Option, none, some}
use ssp21_cpp.Ser.{Ser4cpp}
use ssp21_cpp.Wire.{FormatError, ok, insufficient_space}
use ssp21_cpp.Wire.Messages.Bodies.{ReplyHandshakeBegin, ReplyHandshakeError, SessionData}
use ssp21_cpp.Session.{Checked, pass, fail}
use ssp21_cpp.Session.State.{Exe4cpp, Session}
use ssp21_cpp.Session.Receive.{validate_session_auth}
use ssp21_cpp.Session.Transmit.{WriteResult}
use ssp21_cpp.Layer.{CryptoLayer, Surroundings, pending_of}
use ssp21_cpp.Layer.Crypto.{transmit_session_auth}
use ssp21_cpp.Layer.Initiator.{
  HandshakeState, idle, wait_for_begin_reply, wait_for_auth_reply, wait_for_retry,
  bad_configuration, Timer, cancelled, response, retry, Params, SessionLimits, IInitiatorHandshake,
  Initiator, Event, handshake_required, response_timed_out, retry_timed_out, reply, error, auth,
  with_timer, with_pending, with_handshake, Handled, request_written, init_result,
  idle_on_handshake_required, auth_transmitted, session_initialized, wait_for_begin_reply_on_reply,
  auth_validated, wait_for_auth_reply_on_auth, state_on_handshake_required, state_on_reply,
  state_on_error, state_on_auth, state_on_response_timeout, state_on_retry_timeout, handle,
}

-- The events that a state has no answer to.
abbrev pub ignores : HandshakeState → Event → Bool
ignores idle handshake_required = false
ignores wait_for_begin_reply (reply msg bytes) = false
ignores wait_for_begin_reply (error msg) = false
ignores wait_for_begin_reply response_timed_out = false
ignores wait_for_auth_reply (auth msg) = false
ignores wait_for_auth_reply (error msg) = false
ignores wait_for_auth_reply response_timed_out = false
ignores wait_for_retry retry_timed_out = false
ignores _ _ = true

-- The moves, where the lower layer is ready to transmit, or is not. A state stays for the events that
-- it ignores alone, and `idle` while the lower layer is not ready. `bad_configuration` is left by
-- none.
pub data IsMove (ready : Bool) : HandshakeState → Event → HandshakeState → Type 0 where
  ignored : {s : HandshakeState} {e : Event} → ignores s e ≡ true → IsMove ready s e s
  not_ready : ready ≡ false → IsMove ready idle handshake_required idle
  request_sent : ready ≡ true → IsMove ready idle handshake_required wait_for_begin_reply
  request_unwritable : ready ≡ true → IsMove ready idle handshake_required bad_configuration
  no_request : ready ≡ true → IsMove ready idle handshake_required wait_for_retry
  reply_accepted :
      {msg : ReplyHandshakeBegin} {bytes : Bytes}
      → IsMove ready wait_for_begin_reply (reply msg bytes) wait_for_auth_reply
  reply_rejected :
      {msg : ReplyHandshakeBegin} {bytes : Bytes}
      → IsMove ready wait_for_begin_reply (reply msg bytes) wait_for_retry
  auth_accepted : {msg : SessionData} → IsMove ready wait_for_auth_reply (auth msg) idle
  auth_rejected : {msg : SessionData} → IsMove ready wait_for_auth_reply (auth msg) wait_for_retry
  begin_refused :
      {msg : ReplyHandshakeError} → IsMove ready wait_for_begin_reply (error msg) wait_for_retry
  auth_refused :
      {msg : ReplyHandshakeError} → IsMove ready wait_for_auth_reply (error msg) wait_for_retry
  begin_timed_out : IsMove ready wait_for_begin_reply response_timed_out wait_for_retry
  auth_timed_out : IsMove ready wait_for_auth_reply response_timed_out wait_for_retry
  retried : IsMove ready wait_for_retry retry_timed_out idle

-- The timer that runs while a state waits.
abbrev pub IsArmed : Params → HandshakeState → Timer → Type 0
IsArmed params idle timer = Unit {0}
IsArmed params wait_for_begin_reply timer = timer ≡ response params.response_timeout
IsArmed params wait_for_auth_reply timer = timer ≡ response params.response_timeout
IsArmed params wait_for_retry timer = timer ≡ retry params.retry_timeout
IsArmed params bad_configuration timer = Unit {0}

-- The timer that an event comes from is the one that runs.
abbrev pub IsDue : Params → Event → Timer → Type 0
IsDue params response_timed_out timer = timer ≡ response params.response_timeout
IsDue params retry_timed_out timer = timer ≡ retry params.retry_timeout
IsDue params handshake_required timer = Unit {0}
IsDue params (reply msg bytes) timer = Unit {0}
IsDue params (error msg) timer = Unit {0}
IsDue params (auth msg) timer = Unit {0}

-- A timer that has fired does not run any more when its callback is called.
abbrev pub fired :
    {H L : Type 0} → Event → CryptoLayer (Initiator H) L → CryptoLayer (Initiator H) L
fired response_timed_out c = with_timer cancelled c
fired retry_timed_out c = with_timer cancelled c
fired handshake_required c = c
fired (reply msg bytes) c = c
fired (error msg) c = c
fired (auth msg) c = c

module _ ⦃ser : Ser4cpp⦄ ⦃exe : Exe4cpp⦄ {H L : Type 0} (env : Surroundings (Initiator H) L)
    (handshakes : IInitiatorHandshake H) (params : Params) (limits : SessionLimits) where
  abbrev pub IsHandled :
      Bool → HandshakeState → Event → Handled env handshakes params limits → Type 0
  IsHandled ready s e r =
      IsMove ready s e r.0 × IsArmed params r.0 r.1.derived.response_and_retry_timer

  request_written-IsHandled :
      (now : ℕ) (c : CryptoLayer (Initiator H) L) (result : WriteResult) (e : FormatError)
      → result.err ≡ e
      → IsHandled true idle handshake_required
          (request_written env handshakes params limits now c result)
  request_written-IsHandled now c result ok e = rw e (request_sent refl, refl)
  request_written-IsHandled now c result insufficient_space e = rw e (request_unwritable refl, tt)

  init_result-IsHandled :
      (now : ℕ) (c : CryptoLayer (Initiator H) L) (r : Option (Bytes × Bytes) × H)
      → IsHandled true idle handshake_required (init_result env handshakes params limits now c r)
  init_result-IsHandled now c (none, handshake) = (no_request refl, refl)
  init_result-IsHandled now c (some mode, handshake) =
      request_written-IsHandled now _ (env.frame_writer.write _) _ refl

  on_handshake_required-IsHandled :
      (s : HandshakeState) (now : ℕ) (c : CryptoLayer (Initiator H) L)
      → IsArmed params s c.derived.response_and_retry_timer
      → IsHandled
          (env.lower.is_tx_ready c.lower)
          s
          handshake_required
          (state_on_handshake_required env handshakes params limits s now c)
  unfolding state_on_handshake_required idle_on_handshake_required
  on_handshake_required-IsHandled idle now c T = by_ready (env.lower.is_tx_ready c.lower) refl
    where
      by_ready :
          (b : Bool)
          → env.lower.is_tx_ready c.lower ≡ b
          → IsHandled b idle handshake_required
              (idle_on_handshake_required env handshakes params limits now c)
      by_ready true e = rw e (init_result-IsHandled now c _)
      by_ready false e = rw e (not_ready refl, tt)
  on_handshake_required-IsHandled wait_for_begin_reply now c T = (ignored refl, T)
  on_handshake_required-IsHandled wait_for_auth_reply now c T = (ignored refl, T)
  on_handshake_required-IsHandled wait_for_retry now c T = (ignored refl, T)
  on_handshake_required-IsHandled bad_configuration now c T = (ignored refl, tt)

  auth_transmitted-IsHandled :
      (ready : Bool) (msg : ReplyHandshakeBegin) (bytes : Bytes)
      (r : Bool × Session × CryptoLayer (Initiator H) L)
      → IsHandled ready wait_for_begin_reply
          (reply msg bytes)
          (auth_transmitted env handshakes params limits r)
  auth_transmitted-IsHandled ready msg bytes (true, session, c) = (reply_accepted, refl)
  auth_transmitted-IsHandled ready msg bytes (false, session, c) = (reply_rejected, refl)

  session_initialized-IsHandled :
      (ready : Bool) (msg : ReplyHandshakeBegin) (bytes : Bytes) (now : ℕ)
      (c : CryptoLayer (Initiator H) L) (r : Bool × H × Session)
      → IsHandled ready wait_for_begin_reply
          (reply msg bytes)
          (session_initialized env handshakes params limits now c r)
  session_initialized-IsHandled ready msg bytes now c (true, handshake, session) =
      auth_transmitted-IsHandled ready msg bytes
        (transmit_session_auth env now session (with_pending session (with_handshake handshake c)))
  session_initialized-IsHandled ready msg bytes now c (false, handshake, session) =
      (reply_rejected, refl)

  on_reply-IsHandled :
      (ready : Bool) (s : HandshakeState) (msg : ReplyHandshakeBegin) (bytes : Bytes) (now : ℕ)
      (c : CryptoLayer (Initiator H) L)
      → IsArmed params s c.derived.response_and_retry_timer
      → IsHandled ready s
          (reply msg bytes)
          (state_on_reply env handshakes params limits s msg bytes now c)
  unfolding state_on_reply wait_for_begin_reply_on_reply
  on_reply-IsHandled ready idle msg bytes now c T = (ignored refl, tt)
  on_reply-IsHandled ready wait_for_begin_reply msg bytes now c T =
      session_initialized-IsHandled ready msg bytes now (with_timer cancelled c) (
        handshakes.initialize_session msg bytes limits now c.derived.handshake
          (pending_of c.sessions))
  on_reply-IsHandled ready wait_for_auth_reply msg bytes now c T = (ignored refl, T)
  on_reply-IsHandled ready wait_for_retry msg bytes now c T = (ignored refl, T)
  on_reply-IsHandled ready bad_configuration msg bytes now c T = (ignored refl, tt)

  auth_validated-IsHandled :
      (ready : Bool) (msg : SessionData) (c : CryptoLayer (Initiator H) L)
      (r : Checked Bytes × Session)
      → IsHandled ready wait_for_auth_reply
          (auth msg)
          (auth_validated env handshakes params limits c r)
  auth_validated-IsHandled ready msg c (pass [], session) = (auth_accepted, tt)
  auth_validated-IsHandled ready msg c (pass (b ∷ payload), session) = (auth_accepted, tt)
  auth_validated-IsHandled ready msg c (fail ec, session) = (auth_rejected, refl)

  on_auth-IsHandled :
      (ready : Bool) (s : HandshakeState) (msg : SessionData) (now : ℕ)
      (c : CryptoLayer (Initiator H) L)
      → IsArmed params s c.derived.response_and_retry_timer
      → IsHandled ready s (auth msg) (state_on_auth env handshakes params limits s msg now c)
  unfolding state_on_auth wait_for_auth_reply_on_auth
  on_auth-IsHandled ready idle msg now c T = (ignored refl, tt)
  on_auth-IsHandled ready wait_for_begin_reply msg now c T = (ignored refl, T)
  on_auth-IsHandled ready wait_for_auth_reply msg now c T =
      auth_validated-IsHandled ready msg (with_timer cancelled c)
        (validate_session_auth msg now c.payload_size (pending_of c.sessions))
  on_auth-IsHandled ready wait_for_retry msg now c T = (ignored refl, T)
  on_auth-IsHandled ready bad_configuration msg now c T = (ignored refl, tt)

  on_error-IsHandled :
      (ready : Bool) (s : HandshakeState) (msg : ReplyHandshakeError)
      (c : CryptoLayer (Initiator H) L)
      → IsArmed params s c.derived.response_and_retry_timer
      → IsHandled ready s (error msg) (state_on_error env handshakes params limits s c)
  unfolding state_on_error
  on_error-IsHandled ready idle msg c T = (ignored refl, tt)
  on_error-IsHandled ready wait_for_begin_reply msg c T = (begin_refused, refl)
  on_error-IsHandled ready wait_for_auth_reply msg c T = (auth_refused, refl)
  on_error-IsHandled ready wait_for_retry msg c T = (ignored refl, T)
  on_error-IsHandled ready bad_configuration msg c T = (ignored refl, tt)

  -- The response timer has fired.
  on_response_timeout-IsHandled :
      (ready : Bool) (s : HandshakeState) (c : CryptoLayer (Initiator H) L) (timer : Timer)
      → IsArmed params s timer
      → timer ≡ response params.response_timeout
      → IsHandled ready s response_timed_out
          (state_on_response_timeout env handshakes params limits s c)
  unfolding state_on_response_timeout
  on_response_timeout-IsHandled ready idle c timer T due = (ignored refl, tt)
  on_response_timeout-IsHandled ready wait_for_begin_reply c timer T due = (begin_timed_out, refl)
  on_response_timeout-IsHandled ready wait_for_auth_reply c timer T due = (auth_timed_out, refl)
  on_response_timeout-IsHandled ready wait_for_retry c timer T due = cc
  on_response_timeout-IsHandled ready bad_configuration c timer T due = (ignored refl, tt)

  -- The retry timer has fired.
  on_retry_timeout-IsHandled :
      (ready : Bool) (s : HandshakeState) (c : CryptoLayer (Initiator H) L) (timer : Timer)
      → IsArmed params s timer
      → timer ≡ retry params.retry_timeout
      → IsHandled ready s retry_timed_out (state_on_retry_timeout env handshakes params limits s c)
  unfolding state_on_retry_timeout
  on_retry_timeout-IsHandled ready idle c timer T due = (ignored refl, tt)
  on_retry_timeout-IsHandled ready wait_for_begin_reply c timer T due = cc
  on_retry_timeout-IsHandled ready wait_for_auth_reply c timer T due = cc
  on_retry_timeout-IsHandled ready wait_for_retry c timer T due = (retried, tt)
  on_retry_timeout-IsHandled ready bad_configuration c timer T due = (ignored refl, tt)

  -- Every event moves the handshake along the diagram of its states, in which a state stays only for
  -- the events that it ignores, and `idle` also while the lower layer is not ready. If the timer of
  -- the state ran before, and an event that comes from a timer comes from the one that ran, which has
  -- then stopped, the right timer runs afterwards: one for the response in the states that wait for a
  -- reply, one for the retry in the state that waits to try again. This holds whatever the handshake,
  -- the lower layer and the upper layer do.
  pub handle-IsMove :
      (e : Event) (now : ℕ) (c : CryptoLayer (Initiator H) L)
      → IsArmed params c.derived.handshake_state c.derived.response_and_retry_timer
      → IsDue params e c.derived.response_and_retry_timer
      → let r = handle env handshakes params limits e now (fired e c) in
        IsMove (env.lower.is_tx_ready c.lower) c.derived.handshake_state e r.0
        × IsArmed params r.0 r.1.derived.response_and_retry_timer
  unfolding handle
  handle-IsMove handshake_required now c T due = on_handshake_required-IsHandled _ now c T
  handle-IsMove response_timed_out now c T due =
      on_response_timeout-IsHandled _ _ (with_timer cancelled c) _ T due
  handle-IsMove retry_timed_out now c T due =
      on_retry_timeout-IsHandled _ _ (with_timer cancelled c) _ T due
  handle-IsMove (reply msg bytes) now c T due = on_reply-IsHandled _ _ msg bytes now c T
  handle-IsMove (error msg) now c T due = on_error-IsHandled _ _ msg c T
  handle-IsMove (auth msg) now c T due = on_auth-IsHandled _ _ msg now c T
