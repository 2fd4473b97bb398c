-- ===== src/Handshake/SharedSecret/Agreement.antt =====
-- The two ends of a handshake under a shared secret agree on a session.
use ssp21_cpp.Base.{ℕ, ◌≤◌, ◌≡◌, refl, true, Bytes, [], ◌∷◌, some, ◌==◌, ==_iff, arith, length}
use ssp21_cpp.Ser.{Ser4cpp}
use ssp21_cpp.Wire.{ok}
use ssp21_cpp.Wire.Messages.Bodies.{
  RequestHandshakeBegin, reply_handshake_begin_read, reply_handshake_begin_write,
}
use ssp21_cpp.Wire.Messages.RoundTrip.{reply_handshake_begin_wire}
use ssp21_cpp.Session.{SecureBuffer, as_seq}
use ssp21_cpp.Session.State.{Exe4cpp, Session}
use ssp21_cpp.Session.Transmit.{FrameWriter}
use ssp21_cpp.Layer.Initiator.{SessionLimits}
use ssp21_cpp.Layer.Responder.{success}
use ssp21_cpp.Handshake.{CryptoBackend, compute_hash}
use ssp21_cpp.Handshake.Algorithms.{Common, configured, get_common}
use ssp21_cpp.Handshake.Algorithms.Same.{get_or_throw-configured}
use ssp21_cpp.Handshake.Start.{nonce_length, reply_of}
use ssp21_cpp.Handshake.Peers.{
  IsCryptoBackend, IsFrameWriter, IsPeer, IsBetween, derived-IsPeer, reply_sent,
}
use ssp21_cpp.Handshake.SharedSecret.{
  SharedSecretInitiator, initialize_new_handshake, finalize_request_tx, initialize_session, process,
  mix_handshake_hash,
}

module _ ⦃ser : Ser4cpp⦄ ⦃exe : Exe4cpp⦄ {R : Type 0} (backend : CryptoBackend R) where
  -- Both ends have the same key, and the algorithms of the request; the request carries the nonce
  -- that the initiator has made; the backend and the writer behave as documented, and the reply
  -- fits. Then the responder succeeds, with the frame of a reply that carries a nonce of its own, and
  -- the reply's bytes are read back as it. If they reach the initiator not before it sent the
  -- request, whose bytes both ends have hashed, it starts a session, from a time between the two;
  -- and the sessions are the two ends of one.
  pub shared_secret_agreement :
      (public_of : SecureBuffer → Bytes) (key : SecureBuffer) (algorithms : Common)
      (h : SharedSecretInitiator R) (msg : RequestHandshakeBegin) (request : Bytes) (sent now : ℕ)
      (writer : FrameWriter) (random : R) (s : Session)
      → IsCryptoBackend backend public_of
      → get_common backend msg.spec ≡ configured algorithms
      → (initialize_new_handshake backend h).0 ≡ some (msg.mode_ephemeral, msg.mode_data)
      → IsFrameWriter writer
      → let reply = reply_of (backend.gen_random nonce_length random).0 [] in
        let response = reply_handshake_begin_wire reply in
        let served = process backend key msg request now writer random s in
        length response ≤ writer.max_payload_size
        → (frame : Bytes) × (writer.write (reply_handshake_begin_write reply)
            ≡ record { err = ok; written = response; frame = frame })
          × (served.0 ≡ success frame)
          × (reply_handshake_begin_read response ≡ ok reply)
          × ((limits : SessionLimits) (arrived : ℕ) (t : Session)
              → sent ≤ arrived
              → let h2 =
                  finalize_request_tx algorithms request sent
                    (initialize_new_handshake backend h).1 in
                let r = initialize_session algorithms key reply response limits arrived h2 t in
                (r.0 ≡ true) × IsBetween sent arrived r.2 × IsPeer r.2 served.2)
  unfolding process initialize_session initialize_new_handshake finalize_request_tx
      mix_handshake_hash compute_hash
  shared_secret_agreement public_of key algorithms h msg request sent now writer random s B got
        begun W room =
      let nonce = B.random_length nonce_length h.random in
      let nonce2 = B.random_length nonce_length random in
      let long_enough : (length (backend.gen_random nonce_length random).0 == nonce_length) ≡ true =
        (==_iff _ nonce_length).1 nonce2 in
      let (frame, wrote, back) =
        reply_sent writer (backend.gen_random nonce_length random).0 [] W
          (omega (arith, nonce2), B.random_bytes nonce_length random) (omega arith, tt) room in
      let (fine, same) = get_or_throw-configured _ algorithms got in
      let sent_nonce : (backend.gen_random nonce_length h.random).0 ≡ msg.mode_ephemeral = cc in
      let no_data : [] ≡ msg.mode_data = cc in
      let ephemeral : length msg.mode_ephemeral ≡ 32 = rw (← sent_nonce) nonce in
      rw (ephemeral, ← no_data, fine, same, wrote)
        (
          frame,
          refl,
          refl,
          back,
          λ limits arrived t le.
              rw (long_enough, ← sent_nonce)
                (derived-IsPeer msg.spec algorithms
                  (as_seq (
                    compute_hash algorithms.handshake.hash request (
                      reply_handshake_begin_wire
                        (reply_of (backend.gen_random nonce_length random).0 []))))
                  (as_seq key
                    ∷ (backend.gen_random nonce_length h.random).0
                    ∷ (backend.gen_random nonce_length random).0
                    ∷ [])
                  B got limits msg.constraints sent arrived now t s le),
        )
