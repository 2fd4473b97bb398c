-- ===== src/Handshake/SharedSecret.antt =====
-- SharedSecretInitiatorHandshake.cpp and SharedSecretResponderHandshake.cpp of
-- cpp/libs/ssp21/src/crypto: a handshake under a key that both ends have.
pub mod Agreement
use ssp21_cpp.Base.{
  ℕ, Bool, true, false, not, Bytes, [], ◌∷◌, length, ◌==◌, if◌then◌else◌, Option, some,
}
use ssp21_cpp.Ser.{Ser4cpp}
use ssp21_cpp.Wire.{ok, insufficient_space}
use ssp21_cpp.Wire.Enums.Handshake.{HandshakeError, HandshakeMode}
use ssp21_cpp.Wire.Enums.Suite.{HandshakeEphemeral}
use ssp21_cpp.Wire.Structs.Handshake.{CryptoSpec}
use ssp21_cpp.Wire.Messages.Bodies.{
  RequestHandshakeBegin, ReplyHandshakeBegin, reply_handshake_begin_write,
}
use ssp21_cpp.Session.{SecureBuffer, as_seq}
use ssp21_cpp.Session.State.{Exe4cpp, Session}
use ssp21_cpp.Session.Transmit.{FrameWriter, WriteResult}
use ssp21_cpp.Layer.Initiator.{IInitiatorHandshake, SessionLimits}
use ssp21_cpp.Layer.Responder.{IResponderHandshake, Result, success, failure}
use ssp21_cpp.Handshake.{CryptoBackend, compute_hash}
use ssp21_cpp.Handshake.Algorithms.{Common, any, configure_common, default_common}
use ssp21_cpp.Handshake.Start.{
  nonce_length, is_empty, reply_of, initiator_keys, responder_keys, start_initiator,
  start_responder,
}

-- The members of `SharedSecretInitiatorHandshake` that change, with the source of randomness.
pub record SharedSecretInitiator (R : Type 0) : Type 0 where
  pub nonce_buffer : Bytes
  pub time_request_tx : ℕ
  pub handshake_hash : SecureBuffer
  pub random : R

-- The initiator.
module _ {R : Type 0} (backend : CryptoBackend R) where
  unfoldable pub initialize_new_handshake :
      SharedSecretInitiator R → Option (Bytes × Bytes) × SharedSecretInitiator R
  initialize_new_handshake h =
      let generated = backend.gen_random nonce_length h.random in
      (some (generated.0, []), record h { nonce_buffer = generated.0; random = generated.1 })

module _ {R : Type 0} (algorithms : Common) where
  unfoldable pub finalize_request_tx : Bytes → ℕ → SharedSecretInitiator R → SharedSecretInitiator R
  finalize_request_tx request_data now h = record h {
    time_request_tx = now;
    handshake_hash = algorithms.handshake.hash (request_data ∷ []);
  }

  unfoldable pub mix_handshake_hash : Bytes → SharedSecretInitiator R → SharedSecretInitiator R
  mix_handshake_hash input h = record h {
    handshake_hash = algorithms.handshake.hash (as_seq h.handshake_hash ∷ input ∷ []);
  }

  unfoldable pub initialize_session :
      ⦃exe : Exe4cpp⦄
      → SecureBuffer
      → ReplyHandshakeBegin
      → Bytes
      → SessionLimits
      → ℕ
      → SharedSecretInitiator R
      → Session
      → Bool × SharedSecretInitiator R × Session
  unfolding mix_handshake_hash
  initialize_session key msg reply_data limits now h session =
      if not (length msg.mode_ephemeral == nonce_length)
      then (false, h, session)
      else if not (is_empty msg.mode_data)
      then (false, h, session)
      else let mixed = mix_handshake_hash reply_data h in
        let derived =
          algorithms.handshake.kdf (as_seq mixed.handshake_hash)
            (as_seq key ∷ mixed.nonce_buffer ∷ msg.mode_ephemeral ∷ []) in
        let started =
          start_initiator algorithms.session limits now mixed.time_request_tx
            (initiator_keys derived) session in
        (started.0, mixed, started.1)

-- `IInitiatorHandshake`
unfoldable pub initiator :
    ⦃exe : Exe4cpp⦄
    → {R : Type 0} → CryptoBackend R
    → Common
    → CryptoSpec
    → SecureBuffer
    → IInitiatorHandshake (SharedSecretInitiator R)
initiator backend algorithms crypto_suite key = record {
  get_crypto_suite = record crypto_suite { handshake_ephemeral = HandshakeEphemeral.nonce };
  get_handshake_mode = HandshakeMode.shared_secret;
  initialize_new_handshake = initialize_new_handshake backend;
  finalize_request_tx = finalize_request_tx algorithms;
  initialize_session = initialize_session algorithms key;
}

-- The responder, over the source of randomness.
module _ ⦃ser : Ser4cpp⦄ ⦃exe : Exe4cpp⦄ {R : Type 0} (backend : CryptoBackend R)
    (key : SecureBuffer) where
  abbrev reply_written :
      Common
      → RequestHandshakeBegin
      → Bytes
      → ℕ
      → Session
      → Bytes × R
      → WriteResult
      → Result × R × Session
  reply_written algorithms msg msg_bytes now session (nonce, random) result = elim result.err [
    | insufficient_space ↦ (failure HandshakeError.unknown, random, session)
    | ok ↦
        let handshake_hash = compute_hash algorithms.handshake.hash msg_bytes result.written in
        let derived =
          algorithms.handshake.kdf (as_seq handshake_hash)
            (as_seq key ∷ msg.mode_ephemeral ∷ nonce ∷ []) in
        (
          success result.frame,
          random,
          start_responder algorithms.session msg.constraints now (responder_keys derived) session,
        )
  ]

  abbrev process_configured :
      RequestHandshakeBegin
      → Bytes
      → ℕ
      → FrameWriter
      → R
      → Session
      → HandshakeError × Common
      → Result × R × Session
  process_configured msg msg_bytes now writer random session (e, algorithms) =
      if any e
      then (failure e, random, session)
      else let generated = backend.gen_random nonce_length random in
        reply_written algorithms msg msg_bytes now session generated
          (writer.write (reply_handshake_begin_write (reply_of generated.0 [])))

  -- `process`
  unfoldable pub process :
      RequestHandshakeBegin → Bytes → ℕ → FrameWriter → R → Session → Result × R × Session
  unfolding compute_hash
  process msg msg_bytes now writer random session =
      if not (length msg.mode_ephemeral == nonce_length)
      then (failure HandshakeError.bad_message_format, random, session)
      else if not (is_empty msg.mode_data)
      then (failure HandshakeError.bad_message_format, random, session)
      else process_configured msg msg_bytes now writer random session
          (configure_common backend msg.spec (default_common backend))

  -- `IResponderHandshake`
  unfoldable pub responder : IResponderHandshake R
  responder = record { process = process }
