-- ===== src/Handshake/PublicKey.antt =====
-- PublicKeyInitiatorHandshake.cpp and PublicKeyResponderHandshake.cpp of
-- cpp/libs/ssp21/src/crypto: a triple Diffie-Hellman exchange of static and ephemeral keys, where a
-- certificate handler vouches for the other end's static key.
pub mod Agreement
use ssp21_cpp.Base.{
  ℕ, Bool, true, false, not, Bytes, [], ◌∷◌, length, ◌==◌, if◌then◌else◌, Option, some,
}
use ssp21_cpp.Ser.{Ser4cpp}
use ssp21_cpp.Wire.{ok, insufficient_space}
use ssp21_cpp.Wire.Enums.Handshake.{HandshakeError}
use ssp21_cpp.Wire.Structs.Handshake.{CryptoSpec}
use ssp21_cpp.Wire.Messages.Bodies.{
  RequestHandshakeBegin, ReplyHandshakeBegin, reply_handshake_begin_write,
}
use ssp21_cpp.Session.{Checked, pass, fail, SecureBuffer, as_seq}
use ssp21_cpp.Session.State.{Exe4cpp, Session}
use ssp21_cpp.Session.Transmit.{FrameWriter, WriteResult}
use ssp21_cpp.Certificates.{Verified, trusted, rejected}
use ssp21_cpp.Certificates.Handlers.{CertificateHandler}
use ssp21_cpp.Layer.Initiator.{IInitiatorHandshake, SessionLimits}
use ssp21_cpp.Layer.Responder.{IResponderHandshake, Result, success, failure}
use ssp21_cpp.Handshake.{CryptoBackend, KeyPair, TripleDh, compute_hash, compute_triple_dh}
use ssp21_cpp.Handshake.Algorithms.{
  Common, Dh, any, configure_common, default_common, configure_dh, default_dh,
}
use ssp21_cpp.Handshake.Start.{
  x25519_key_length, reply_of, initiator_keys, responder_keys, start_initiator, start_responder,
}

-- The members of `PublicKeyInitiatorHandshake` that change, with the source of randomness.
pub record PublicKeyInitiator (R : Type 0) : Type 0 where
  pub local_ephemeral_keys : KeyPair
  pub time_request_tx : ℕ
  pub handshake_hash : SecureBuffer
  pub random : R

-- The initiator.
module _ {R : Type 0} (dh_algorithms : Dh R) (cert_handler : CertificateHandler) where
  unfoldable pub initialize_new_handshake :
      PublicKeyInitiator R → Option (Bytes × Bytes) × PublicKeyInitiator R
  initialize_new_handshake h =
      let generated = dh_algorithms.gen_key_pair h.random in
      (
        some (as_seq generated.0.public_key, cert_handler.certificate_data),
        record h { local_ephemeral_keys = generated.0; random = generated.1 },
      )

module _ {R : Type 0} (algorithms : Common) where
  unfoldable pub finalize_request_tx : Bytes → ℕ → PublicKeyInitiator R → PublicKeyInitiator R
  finalize_request_tx request_data now h = record h {
    time_request_tx = now;
    handshake_hash = algorithms.handshake.hash (request_data ∷ []);
  }

  unfoldable pub mix_handshake_hash : Bytes → PublicKeyInitiator R → PublicKeyInitiator R
  mix_handshake_hash input h = record h {
    handshake_hash = algorithms.handshake.hash (as_seq h.handshake_hash ∷ input ∷ []);
  }

module _ ⦃exe : Exe4cpp⦄ {R : Type 0} (algorithms : Common) (dh_algorithms : Dh R)
    (static_keys : KeyPair) (cert_handler : CertificateHandler) where
  -- The end of `initialize_session`, once the key material is there.
  abbrev material_computed :
      SessionLimits
      → ℕ
      → PublicKeyInitiator R
      → Session
      → Checked TripleDh
      → Bool × PublicKeyInitiator R × Session
  material_computed limits now h session (fail ec) = (false, h, session)
  material_computed limits now h session (pass ikm) =
      let derived =
        algorithms.handshake.kdf (as_seq h.handshake_hash) (ikm.dh1 ∷ ikm.dh3 ∷ ikm.dh2 ∷ []) in
      let started =
        start_initiator algorithms.session limits now h.time_request_tx (initiator_keys derived)
          session in
      (started.0, h, started.1)

  abbrev certificate_validated :
      ReplyHandshakeBegin
      → Bytes
      → SessionLimits
      → ℕ
      → PublicKeyInitiator R
      → Session
      → Verified Bytes
      → Bool × PublicKeyInitiator R × Session
  certificate_validated msg msg_bytes limits now h session (rejected e) = (false, h, session)
  certificate_validated msg msg_bytes limits now h session (trusted remote_public_key) =
      let mixed = mix_handshake_hash algorithms msg_bytes h in
      material_computed limits now mixed session (
        compute_triple_dh dh_algorithms.dh static_keys mixed.local_ephemeral_keys remote_public_key
          msg.mode_ephemeral)

  unfoldable pub initialize_session :
      ReplyHandshakeBegin
      → Bytes
      → SessionLimits
      → ℕ
      → PublicKeyInitiator R
      → Session
      → Bool × PublicKeyInitiator R × Session
  unfolding mix_handshake_hash
  initialize_session msg msg_bytes limits now h session =
      certificate_validated msg msg_bytes limits now h session
        (cert_handler.validate cert_handler.mode msg.mode_data)

  -- `IInitiatorHandshake`
  unfoldable pub initiator : CryptoSpec → IInitiatorHandshake (PublicKeyInitiator R)
  initiator crypto_suite = record {
    get_crypto_suite = crypto_suite;
    get_handshake_mode = cert_handler.mode;
    initialize_new_handshake = initialize_new_handshake dh_algorithms cert_handler;
    finalize_request_tx = finalize_request_tx algorithms;
    initialize_session = initialize_session;
  }

-- The responder, over the source of randomness.
module _ ⦃ser : Ser4cpp⦄ ⦃exe : Exe4cpp⦄ {R : Type 0} (backend : CryptoBackend R)
    (static_keys : KeyPair) (cert_handler : CertificateHandler) where
  abbrev session_derived :
      Common
      → RequestHandshakeBegin
      → Bytes
      → ℕ
      → R
      → Session
      → WriteResult
      → Checked TripleDh
      → Result × R × Session
  session_derived algorithms msg msg_bytes now random session result (fail ec) =
      (failure HandshakeError.unknown, random, session)
  session_derived algorithms msg msg_bytes now random session result (pass ikm) =
      let handshake_hash = compute_hash algorithms.handshake.hash msg_bytes result.written in
      let derived =
        algorithms.handshake.kdf (as_seq handshake_hash) (ikm.dh1 ∷ ikm.dh2 ∷ ikm.dh3 ∷ []) in
      (
        success result.frame,
        random,
        start_responder algorithms.session msg.constraints now (responder_keys derived) session,
      )

  abbrev reply_written :
      Common
      → Dh R
      → RequestHandshakeBegin
      → Bytes
      → ℕ
      → Session
      → Bytes
      → KeyPair × R
      → WriteResult
      → Result × R × Session
  reply_written algorithms dh msg msg_bytes now session remote (keys, random) result =
      elim result.err [
        | insufficient_space ↦ (failure HandshakeError.unknown, random, session)
        | ok ↦
            session_derived algorithms msg msg_bytes now random session result
              (compute_triple_dh dh.dh static_keys keys remote msg.mode_ephemeral)
      ]

  abbrev process_validated :
      Common
      → Dh R
      → RequestHandshakeBegin
      → Bytes
      → ℕ
      → FrameWriter
      → R
      → Session
      → Verified Bytes
      → Result × R × Session
  process_validated algorithms dh msg msg_bytes now writer random session (rejected e) =
      (failure e, random, session)
  process_validated algorithms dh msg msg_bytes now writer random session (trusted remote) =
      let generated = dh.gen_key_pair random in
      reply_written algorithms dh msg msg_bytes now session remote generated (
        writer.write (
          reply_handshake_begin_write
            (reply_of (as_seq generated.0.public_key) cert_handler.certificate_data)))

  abbrev process_configured :
      RequestHandshakeBegin
      → Bytes
      → ℕ
      → FrameWriter
      → R
      → Session
      → HandshakeError × Common
      → HandshakeError × Dh R
      → Result × R × Session
  process_configured msg msg_bytes now writer random session (e, algorithms) (e', dh) =
      if any e
      then (failure e, random, session)
      else if any e'
      then (failure e', random, session)
      else if not (length msg.mode_ephemeral == x25519_key_length)
      then (failure HandshakeError.bad_message_format, random, session)
      else process_validated algorithms dh msg msg_bytes now writer random session
          (cert_handler.validate msg.handshake_mode msg.mode_data)

  -- `process`
  unfoldable pub process :
      RequestHandshakeBegin → Bytes → ℕ → FrameWriter → R → Session → Result × R × Session
  unfolding compute_hash
  process msg msg_bytes now writer random session =
      process_configured msg msg_bytes now writer random session
        (configure_common backend msg.spec (default_common backend))
        (configure_dh backend msg.spec.handshake_ephemeral (default_dh backend))

  -- `IResponderHandshake`
  unfoldable pub responder : IResponderHandshake R
  responder = record { process = process }
