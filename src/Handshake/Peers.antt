-- ===== src/Handshake/Peers.antt =====
-- When two sessions are the two ends of one, and what the handshakes rely on for it.
use ssp21_cpp.Base.{ℕ, ◌≤◌, ◌≡◌, refl, ap, true, Bytes, List, All, IsByte, arith, length, le→ltb}
use ssp21_cpp.Ser.{Ser4cpp, WSeq, fill}
use ssp21_cpp.Wire.{FormatError, Parsed}
use ssp21_cpp.Wire.Fields.ByteSeq.{IsSeq}
use ssp21_cpp.Wire.Messages.Bodies.{reply_handshake_begin_read, reply_handshake_begin_write}
use ssp21_cpp.Wire.Messages.Format.{IsReplyHandshakeBegin}
use ssp21_cpp.Wire.Messages.RoundTrip.{
  reply_handshake_begin_wire, reply_handshake_begin_write-wire, reply_handshake_begin_read-wire,
}
use ssp21_cpp.Wire.Structs.Handshake.{SessionConstraints, CryptoSpec}
use ssp21_cpp.Session.{SecureBuffer, as_seq, length_32}
use ssp21_cpp.Session.State.{Exe4cpp, Algorithms, Session, initialize}
use ssp21_cpp.Session.Transmit.{IWritable, FrameWriter}
use ssp21_cpp.Layer.Initiator.{SessionLimits}
use ssp21_cpp.Handshake.{CryptoBackend}
use ssp21_cpp.Handshake.Algorithms.{Common, Handshake, configured, get_common}
use ssp21_cpp.Handshake.Algorithms.Same.{get_common-handshake}
use ssp21_cpp.Handshake.Start.{
  reply_of, initiator_keys, responder_keys, start_initiator, start_responder,
}

-- The documented behaviour of the backend: derived keys have 32 bytes, random bytes and public keys
-- are bytes of the length that is asked for, and a Diffie-Hellman exchange, where `public_of` is
-- the public key of a private one, has the same result on both sides.
pub record IsCryptoBackend {R : Type 0} (backend : CryptoBackend R)
    (public_of : SecureBuffer → Bytes) : Type 0 where
  pub first_32 :
      (salt : Bytes) (ikm : List Bytes) → (backend.hkdf_sha256 salt ikm).0.length ≡ length_32
  pub second_32 :
      (salt : Bytes) (ikm : List Bytes) → (backend.hkdf_sha256 salt ikm).1.length ≡ length_32
  pub random_length : (n : ℕ) (r : R) → length (backend.gen_random n r).0 ≡ n
  pub random_bytes : (n : ℕ) (r : R) → All IsByte (backend.gen_random n r).0
  pub key_pair :
      (r : R)
      → as_seq (backend.gen_keypair_x25519 r).0.public_key
        ≡ public_of (backend.gen_keypair_x25519 r).0.private_key
  pub public_length : (key : SecureBuffer) → length (public_of key) ≡ 32
  pub public_bytes : (key : SecureBuffer) → All IsByte (public_of key)
  pub dh_comm :
      (a b : SecureBuffer) → backend.dh_x25519 a (public_of b) ≡ backend.dh_x25519 b (public_of a)

-- A frame writer puts out, without an error, any payload of at most its maximum that writes its
-- bytes into a view with room for them.
abbrev pub IsFrameWriter : FrameWriter → Type 0
IsFrameWriter writer =
    (payload : IWritable) (bytes : Bytes)
    → ((w : WSeq)
        → length bytes ≤ w.space
        → payload w ≡ (record { err = FormatError.ok; written = bytes }, fill w bytes))
    → length bytes ≤ writer.max_payload_size
    → (frame : Bytes) × (writer.write payload
        ≡ record { err = FormatError.ok; written = bytes; frame = frame })

-- Both sessions are valid and fresh, use the same algorithms, and each receives with the key that
-- the other transmits with.
pub record IsPeer (s t : Session) : Type 0 where
  pub valid1 : s.valid ≡ true
  pub valid2 : t.valid ≡ true
  pub forth : s.keys.tx_key ≡ t.keys.rx_key
  pub back : t.keys.tx_key ≡ s.keys.rx_key
  pub same_algorithms : s.algorithms ≡ t.algorithms
  pub fresh1 : (s.tx_nonce ≡ 0) × (s.rx_nonce ≡ 0)
  pub fresh2 : (t.tx_nonce ≡ 0) × (t.rx_nonce ≡ 0)

-- The estimate of the session's start lies between the request and the reply.
abbrev pub IsBetween : ℕ → ℕ → Session → Type 0
IsBetween sent arrived s =
    (sent ≤ s.parameters.session_start) × (s.parameters.session_start ≤ arrived)

module _ ⦃exe : Exe4cpp⦄ where
  start-IsPeer :
      (algorithms : Algorithms) (derived : SecureBuffer × SecureBuffer) (limits : SessionLimits)
      (constraints : SessionConstraints) (sent arrived now : ℕ) (s t : Session)
      → derived.0.length ≡ length_32
      → derived.1.length ≡ length_32
      → sent ≤ arrived
      → let r = start_initiator algorithms limits arrived sent (initiator_keys derived) s in
        (r.0 ≡ true)
        × IsBetween sent arrived r.1
        × IsPeer r.1 (start_responder algorithms constraints now (responder_keys derived) t)
  unfolding start_initiator start_responder initialize
  start-IsPeer algorithms derived limits constraints sent arrived now s t first second le =
      rw (le→ltb arrived sent le, first, second)
        (
          refl,
          (omega (arith, le), omega (arith, le)),
          record {
            valid1 = refl;
            valid2 = refl;
            forth = refl;
            back = refl;
            same_algorithms = refl;
            fresh1 = (refl, refl);
            fresh2 = (refl, refl);
          },
        )

module _ ⦃ser : Ser4cpp⦄ where
  -- A reply that has room is put out, and is read back as it was.
  pub reply_sent :
      (writer : FrameWriter) (mode_ephemeral mode_data : Bytes)
      → IsFrameWriter writer
      → IsSeq mode_ephemeral
      → IsSeq mode_data
      → length (reply_handshake_begin_wire (reply_of mode_ephemeral mode_data))
        ≤ writer.max_payload_size
      → (frame : Bytes) × (writer.write
            (reply_handshake_begin_write (reply_of mode_ephemeral mode_data))
          ≡ record {
            err = FormatError.ok;
            written = reply_handshake_begin_wire (reply_of mode_ephemeral mode_data);
            frame = frame;
          })
        × (reply_handshake_begin_read
              (reply_handshake_begin_wire (reply_of mode_ephemeral mode_data))
            ≡ Parsed.ok (reply_of mode_ephemeral mode_data))
  reply_sent writer mode_ephemeral mode_data W ephemeral mode room =
      let reply = reply_of mode_ephemeral mode_data in
      let valid : IsReplyHandshakeBegin reply = ((omega arith, omega arith), (ephemeral, mode)) in
      let (frame, wrote) =
        W (reply_handshake_begin_write reply) (reply_handshake_begin_wire reply)
          (λ w fits. reply_handshake_begin_write-wire reply w valid fits) room in
      (frame, wrote, reply_handshake_begin_read-wire reply valid)

-- Keys that are derived by configured algorithms have 32 bytes.
derived_32 :
    {R : Type 0} {backend : CryptoBackend R} {public_of : SecureBuffer → Bytes} (spec : CryptoSpec)
    (algorithms : Common) (salt : Bytes) (ikm : List Bytes)
    → IsCryptoBackend backend public_of
    → get_common backend spec ≡ configured algorithms
    → ((algorithms.handshake.kdf salt ikm).0.length ≡ length_32)
      × ((algorithms.handshake.kdf salt ikm).1.length ≡ length_32)
derived_32 {backend} spec algorithms salt ikm B got =
    let kdf = ap (λ (a : Handshake). a.kdf) (get_common-handshake backend spec algorithms got) in
    rw kdf (B.first_32 salt ikm, B.second_32 salt ikm)

-- Both ends that derive their keys from the same salt and input agree.
pub derived-IsPeer :
    ⦃exe : Exe4cpp⦄
    → {R : Type 0} {backend : CryptoBackend R} {public_of : SecureBuffer → Bytes}
      (spec : CryptoSpec) (algorithms : Common) (salt : Bytes) (ikm : List Bytes)
    → IsCryptoBackend backend public_of
    → get_common backend spec ≡ configured algorithms
    → (limits : SessionLimits) (constraints : SessionConstraints) (sent arrived now : ℕ)
      (s t : Session)
    → sent ≤ arrived
    → let derived = algorithms.handshake.kdf salt ikm in
      let r = start_initiator algorithms.session limits arrived sent (initiator_keys derived) s in
      (r.0 ≡ true)
      × IsBetween sent arrived r.1
      × IsPeer r.1 (start_responder algorithms.session constraints now (responder_keys derived) t)
derived-IsPeer spec algorithms salt ikm B got limits constraints sent arrived now s t le =
    let (first, second) = derived_32 spec algorithms salt ikm B got in
    start-IsPeer algorithms.session (algorithms.handshake.kdf salt ikm) limits constraints sent
      arrived now s t first second le
