-- ===== src/Handshake/PublicKey/Agreement.antt =====
-- The two ends of a handshake with public keys agree on a session.
use ssp21_cpp.Base.{
  ℕ, ◌≤◌, ◌≡◌, refl, sym, ap, ◌∙◌, true, Bytes, [], ◌∷◌, some, ◌==◌, ==_iff, arith, length,
}
use ssp21_cpp.Ser.{Ser4cpp}
use ssp21_cpp.Wire.{ok}
use ssp21_cpp.Wire.Fields.ByteSeq.{IsSeq}
use ssp21_cpp.Wire.Messages.Bodies.{
  RequestHandshakeBegin, reply_handshake_begin_read, reply_handshake_begin_write,
}
use ssp21_cpp.Wire.Messages.RoundTrip.{reply_handshake_begin_wire}
use ssp21_cpp.Session.{pass, SecureBuffer, as_seq}
use ssp21_cpp.Session.State.{Exe4cpp, Session}
use ssp21_cpp.Session.Transmit.{FrameWriter}
use ssp21_cpp.Certificates.{trusted}
use ssp21_cpp.Certificates.Handlers.{CertificateHandler}
use ssp21_cpp.Layer.Initiator.{SessionLimits}
use ssp21_cpp.Layer.Responder.{success}
use ssp21_cpp.Handshake.{CryptoBackend, KeyPair, TripleDh, compute_hash, compute_triple_dh}
use ssp21_cpp.Handshake.Algorithms.{Common, Dh, configured, get_common, get_dh}
use ssp21_cpp.Handshake.Algorithms.Same.{get_or_throw-configured, get_dh-default}
use ssp21_cpp.Handshake.Start.{x25519_key_length, reply_of}
use ssp21_cpp.Handshake.Peers.{
  IsCryptoBackend, IsFrameWriter, IsPeer, IsBetween, derived-IsPeer, reply_sent,
}
use ssp21_cpp.Handshake.PublicKey.{
  PublicKeyInitiator, initialize_new_handshake, finalize_request_tx, initialize_session, process,
  mix_handshake_hash,
}

module _ ⦃ser : Ser4cpp⦄ ⦃exe : Exe4cpp⦄ {R : Type 0} (backend : CryptoBackend R)
    (public_of : SecureBuffer → Bytes) where
  -- The three exchanges of an initiator, and their results.
  pub record IsTripleDh (static ephemeral remote_static remote_ephemeral : SecureBuffer)
      (ikm : TripleDh) : Type 0 where
    pub dh1 : SecureBuffer
    pub dh2 : SecureBuffer
    pub dh3 : SecureBuffer
    pub ephemerals : backend.dh_x25519 ephemeral (public_of remote_ephemeral) ≡ pass dh1
    pub to_static : backend.dh_x25519 ephemeral (public_of remote_static) ≡ pass dh2
    pub from_static : backend.dh_x25519 static (public_of remote_ephemeral) ≡ pass dh3
    pub results : ikm ≡ record { dh1 = as_seq dh1; dh2 = as_seq dh2; dh3 = as_seq dh3 }

  -- The initiator computes that material, and the responder the same with the last two exchanged.
  triple_dh_agreement :
      (static ephemeral remote_static remote_ephemeral : KeyPair) (ikm : TripleDh)
      → IsCryptoBackend backend public_of
      → IsTripleDh static.private_key ephemeral.private_key remote_static.private_key
          remote_ephemeral.private_key ikm
      → (compute_triple_dh backend.dh_x25519 static ephemeral
            (public_of remote_static.private_key)
            (public_of remote_ephemeral.private_key)
          ≡ pass ikm)
        × (compute_triple_dh backend.dh_x25519 remote_static remote_ephemeral
              (public_of static.private_key)
              (public_of ephemeral.private_key)
            ≡ pass (record { dh1 = ikm.dh1; dh2 = ikm.dh3; dh3 = ikm.dh2 }))
  unfolding compute_triple_dh
  triple_dh_agreement static ephemeral remote_static remote_ephemeral ikm B T =
      let e = B.dh_comm remote_ephemeral.private_key ephemeral.private_key in
      let s = B.dh_comm remote_ephemeral.private_key static.private_key in
      let r = B.dh_comm remote_static.private_key ephemeral.private_key in
      (
        rw (T.ephemerals, T.to_static, T.from_static, T.results) refl,
        rw (e, s, r, T.ephemerals, T.to_static, T.from_static, T.results) refl,
      )

  -- Each end's certificate handler vouches for the other's static key; both ends use the algorithms
  -- of the request, which carries the initiator's ephemeral key and certificate data; the three
  -- exchanges succeed, the backend and the writer behave as documented, and the reply fits. Then the
  -- responder succeeds, with the frame of a reply that carries its ephemeral key and certificate
  -- data, and the reply's bytes are read back as it. If they reach the initiator not before it sent
  -- the request, whose bytes both ends have hashed, it starts a session, from a time between the two;
  -- and the sessions are the two ends of one.
  pub public_key_agreement :
      (static_keys remote_keys : KeyPair) (cert_handler remote_handler : CertificateHandler)
      (algorithms : Common) (dh_algorithms : Dh R) (h : PublicKeyInitiator R)
      (msg : RequestHandshakeBegin) (request : Bytes) (sent now : ℕ) (writer : FrameWriter)
      (random : R) (s : Session) (ikm : TripleDh)
      → IsCryptoBackend backend public_of
      → get_common backend msg.spec ≡ configured algorithms
      → get_dh backend msg.spec.handshake_ephemeral ≡ configured dh_algorithms
      → (initialize_new_handshake dh_algorithms cert_handler h).0
        ≡ some (msg.mode_ephemeral, msg.mode_data)
      → remote_handler.validate msg.handshake_mode cert_handler.certificate_data
        ≡ trusted (public_of static_keys.private_key)
      → cert_handler.validate cert_handler.mode remote_handler.certificate_data
        ≡ trusted (public_of remote_keys.private_key)
      → IsSeq remote_handler.certificate_data
      → IsTripleDh static_keys.private_key
          (backend.gen_keypair_x25519 h.random).0.private_key
          remote_keys.private_key
          (backend.gen_keypair_x25519 random).0.private_key
          ikm
      → IsFrameWriter writer
      → let reply =
          reply_of
            (as_seq (backend.gen_keypair_x25519 random).0.public_key)
            remote_handler.certificate_data in
        let response = reply_handshake_begin_wire reply in
        let served = process backend remote_keys remote_handler msg request now writer random s in
        length response ≤ writer.max_payload_size
        → (frame : Bytes) × (writer.write (reply_handshake_begin_write reply)
            ≡ record { err = ok; written = response; frame = frame })
          × (served.0 ≡ success frame)
          × (reply_handshake_begin_read response ≡ ok reply)
          × ((limits : SessionLimits) (arrived : ℕ) (t : Session)
              → sent ≤ arrived
              → let begun = (initialize_new_handshake dh_algorithms cert_handler h).1 in
                let h2 = finalize_request_tx algorithms request sent begun in
                let r =
                  initialize_session algorithms dh_algorithms static_keys cert_handler reply
                    response limits arrived h2 t in
                (r.0 ≡ true) × IsBetween sent arrived r.2 × IsPeer r.2 served.2)
  unfolding process initialize_session initialize_new_handshake finalize_request_tx
      mix_handshake_hash compute_hash
  public_key_agreement static_keys remote_keys cert_handler remote_handler algorithms dh_algorithms
        h msg request sent now writer random s ikm B got got_dh begun accepts vouched seq T W room =
      let ours = (backend.gen_keypair_x25519 h.random).0 in
      let theirs = (backend.gen_keypair_x25519 random).0 in
      let public : Bytes = as_seq theirs.public_key in
      let remote = B.key_pair random in
      let (fine, same) = get_or_throw-configured _ algorithms got in
      let (fine_dh, chosen_dh, same_dh) =
        get_dh-default backend msg.spec.handshake_ephemeral dh_algorithms got_dh in
      let sent_key : as_seq (dh_algorithms.gen_key_pair h.random).0.public_key
          ≡ msg.mode_ephemeral =
        cc in
      let local : msg.mode_ephemeral ≡ public_of ours.private_key =
        sym sent_key
        ∙ ap (λ (d : Dh R). as_seq (d.gen_key_pair h.random).0.public_key) same_dh
        ∙ B.key_pair h.random in
      let presented : cert_handler.certificate_data ≡ msg.mode_data = cc in
      let accepted = ap (remote_handler.validate msg.handshake_mode) (sym presented) ∙ accepts in
      let long_enough : (length msg.mode_ephemeral == x25519_key_length) ≡ true =
        (==_iff _ x25519_key_length).1 (ap length local ∙ B.public_length ours.private_key) in
      let (frame, wrote, back) =
        reply_sent writer public remote_handler.certificate_data W
          (rw remote
            (omega (arith, B.public_length theirs.private_key), B.public_bytes theirs.private_key))
          seq room in
      let (mine, other) = triple_dh_agreement static_keys ours remote_keys theirs ikm B T in
      let initiated =
        ap
          (compute_triple_dh backend.dh_x25519 static_keys ours (public_of remote_keys.private_key))
          remote
        ∙ mine in
      let responded =
        ap
          (compute_triple_dh backend.dh_x25519 remote_keys theirs
            (public_of static_keys.private_key))
          local
        ∙ other in
      rw (fine, same, fine_dh, chosen_dh, long_enough, accepted, wrote, responded)
        (
          frame,
          refl,
          refl,
          back,
          λ limits arrived t le.
              rw (same_dh, vouched, initiated)
                (derived-IsPeer msg.spec algorithms
                  (as_seq (
                    compute_hash algorithms.handshake.hash request (
                      reply_handshake_begin_wire
                        (reply_of public remote_handler.certificate_data))))
                  (ikm.dh1 ∷ ikm.dh3 ∷ ikm.dh2 ∷ []) B got limits msg.constraints sent arrived now t
                  s le),
        )
