-- ===== src/Layer/Responder/Acceptance.antt =====
-- When a responder takes a new session, and what a request that it refuses leaves.
use ssp21_cpp.Base.{
  ℕ, ◌≡◌, refl, ap, sym, ◌∙◌, ◌⊎◌, inl, inr, Bool, true, false, not, Bytes, ◌==◌, if◌then◌else◌,
}
use ssp21_cpp.Ser.{Ser4cpp}
use ssp21_cpp.Wire.{FormatError, ok, insufficient_space}
use ssp21_cpp.Wire.Enums.Handshake.{HandshakeError}
use ssp21_cpp.Wire.Messages.Bodies.{RequestHandshakeBegin, SessionData}
use ssp21_cpp.Session.{Checked, pass, fail, equal_to_zero}
use ssp21_cpp.Session.State.{Exe4cpp, Session, Sessions, activate_pending}
use ssp21_cpp.Session.Receive.{validate_session_auth}
use ssp21_cpp.Session.Receive.Checks.{IsFresh, payload_of, func-pass, take_nonce}
use ssp21_cpp.Session.Transmit.{WriteResult}
use ssp21_cpp.Layer.{CryptoLayer, Surroundings, pending_of, set_pending}
use ssp21_cpp.Layer.Crypto.{transmit_session_auth}
use ssp21_cpp.Layer.Initiator.Activation.{with_statistics}
use ssp21_cpp.Layer.Responder.{
  Result, success, failure, IResponderHandshake, error_written, reply_with_handshake_error,
  processed, on_request, auth_transmitted, activated, auth_validated, on_auth_session,
}

module _ ⦃ser : Ser4cpp⦄ ⦃exe : Exe4cpp⦄ {H L : Type 0} (env : Surroundings H L)
    (handshakes : IResponderHandshake H) where
  abbrev pub Keeps : CryptoLayer H L → CryptoLayer H L → Type 0
  Keeps c next =
      next.sessions.active ≡ with_statistics c.sessions.active next.sessions.active.statistics

  error_written-sessions :
      (c : CryptoLayer H L) (res : WriteResult) (e : FormatError)
      → res.err ≡ e
      → (error_written env handshakes c res).sessions ≡ c.sessions
  error_written-sessions c res ok e = rw e refl
  error_written-sessions c res insufficient_space e = rw e refl

  reply_with_handshake_error-sessions :
      (e : HandshakeError) (c : CryptoLayer H L)
      → (reply_with_handshake_error env handshakes e c).sessions ≡ c.sessions
  unfolding reply_with_handshake_error
  reply_with_handshake_error-sessions e c =
      error_written-sessions c (env.frame_writer.write _) _ refl

  same-Keeps : (c next : CryptoLayer H L) → next.sessions ≡ c.sessions → Keeps c next
  same-Keeps c next e =
      let same : next.sessions.active ≡ c.sessions.active = ap (λ (s : Sessions). s.active) e in
      same ∙ ap (with_statistics c.sessions.active) (sym (ap (λ (s : Session). s.statistics) same))

  -- What follows a change of the pending session.
  behind-Keeps :
      (c next last : CryptoLayer H L) → Keeps c next → last.sessions ≡ next.sessions → Keeps c last
  behind-Keeps c next last K e =
      let same : last.sessions.active ≡ next.sessions.active = ap (λ (s : Sessions). s.active) e in
      same
      ∙ K
      ∙ ap (with_statistics c.sessions.active) (sym (ap (λ (s : Session). s.statistics) same))

  processed-Keeps :
      (c : CryptoLayer H L) (r : Result × H × Session) → Keeps c (processed env handshakes c r)
  processed-Keeps c (success reply_data, handshake, session) = refl
  processed-Keeps c (failure e, handshake, session) =
      let next : CryptoLayer H L = record c {
        derived = handshake;
        sessions = set_pending c.sessions session;
      } in
      behind-Keeps c next (reply_with_handshake_error env handshakes e next) refl
        (reply_with_handshake_error-sessions e next)

  on_request-Keeps :
      (msg : RequestHandshakeBegin) (raw_msg : Bytes) (now : ℕ) (c : CryptoLayer H L)
      → Keeps c (on_request env handshakes msg raw_msg now c)
  unfolding on_request
  on_request-Keeps msg raw_msg now c = by_version (not (msg.version.major_version == 0))
    where
      by_version :
          (b : Bool)
          → Keeps c (
              if b
              then reply_with_handshake_error env handshakes HandshakeError.unsupported_version c
              else processed env handshakes c (
                  handshakes.process msg raw_msg now env.frame_writer c.derived
                    (pending_of c.sessions)))
      by_version true =
          same-Keeps c
            (reply_with_handshake_error env handshakes HandshakeError.unsupported_version c)
            (reply_with_handshake_error-sessions HandshakeError.unsupported_version c)
      by_version false =
          processed-Keeps c
            (handshakes.process msg raw_msg now env.frame_writer c.derived (pending_of c.sessions))

  -- A message has authenticated the pending session, which becomes the active one and answers it.
  pub record IsActivation (msg : SessionData) (now : ℕ) (c next : CryptoLayer H L) : Type 0 where
    pub payload : Bytes
    pub valid : c.sessions.pending.valid ≡ true
    pub authentic : payload_of msg c.payload_size c.sessions.pending ≡ pass payload
    pub fresh : IsFresh equal_to_zero msg now c.sessions.pending
    pub result :
        next
        ≡ auth_transmitted env handshakes payload (
            transmit_session_auth env now
              (take_nonce msg (pending_of c.sessions))
              (activated env handshakes (take_nonce msg (pending_of c.sessions)) c))

  auth_validated_cases :
      (msg : SessionData) (now : ℕ) (c : CryptoLayer H L) (o : Checked Bytes × Session)
      → validate_session_auth msg now c.payload_size (pending_of c.sessions) ≡ o
      → Keeps c (auth_validated env handshakes now c o)
        ⊎ IsActivation msg now c (auth_validated env handshakes now c o)
  unfolding validate_session_auth payload_of auth_validated activate_pending
  auth_validated_cases msg now c (fail ec, session) ran = inl refl
  auth_validated_cases msg now c (pass payload, session) ran =
      let (valid, authentic, fresh, next) =
        func-pass msg now c.payload_size equal_to_zero (pending_of c.sessions) session payload
          ran in
      inr (record {
        payload = payload;
        valid = valid;
        authentic = authentic;
        fresh = record {
          no_rollback = fresh.no_rollback;
          in_session = fresh.in_session;
          alive = fresh.alive;
          max_nonce = fresh.max_nonce;
          verified = fresh.verified;
        };
        result =
            ap
              (λ (s : Session).
                auth_transmitted env handshakes payload
                  (transmit_session_auth env now s (activated env handshakes s c)))
              next;
      })

  on_auth_session_cases :
      (msg : SessionData) (raw_data : Bytes) (now : ℕ) (c : CryptoLayer H L)
      → Keeps c (on_auth_session env handshakes msg raw_data now c)
        ⊎ IsActivation msg now c (on_auth_session env handshakes msg raw_data now c)
  unfolding on_auth_session
  on_auth_session_cases msg raw_data now c = by_valid (not c.sessions.pending.valid)
    where
      by_valid :
          (b : Bool)
          → let validated =
              auth_validated env handshakes now c
                (validate_session_auth msg now c.payload_size (pending_of c.sessions)) in
            let next =
              if b
              then reply_with_handshake_error env handshakes HandshakeError.no_prior_handshake_begin
                  c
              else validated in
            Keeps c next ⊎ IsActivation msg now c next
      by_valid true = inl (
          same-Keeps c
            (reply_with_handshake_error env handshakes HandshakeError.no_prior_handshake_begin c)
            (reply_with_handshake_error-sessions HandshakeError.no_prior_handshake_begin c))
      by_valid false =
          auth_validated_cases msg now c
            (validate_session_auth msg now c.payload_size (pending_of c.sessions)) refl

  -- The responder's active session stays, but for its statistics, when a handshake is requested,
  -- whatever comes of the request, and when a message for the pending session is refused. It is
  -- replaced only when the pending session is valid and such a message decrypts under its receiving
  -- key and is fresh for it with the nonce zero: the pending session, with the message counted, is
  -- then the active one and answers, before the upper layer is opened.
  pub responder-IsActivation :
      (c : CryptoLayer H L) (now : ℕ) (raw_data : Bytes)
      → ((msg : RequestHandshakeBegin) → Keeps c (on_request env handshakes msg raw_data now c))
        × ((msg : SessionData)
            → Keeps c (on_auth_session env handshakes msg raw_data now c)
              ⊎ IsActivation msg now c (on_auth_session env handshakes msg raw_data now c))
  responder-IsActivation c now raw_data =
      (λ msg. on_request-Keeps msg raw_data now c, λ msg. on_auth_session_cases msg raw_data now c)
