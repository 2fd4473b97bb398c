-- ===== src/Handshake/Qkd.antt =====
-- QKDInitiatorHandshake.cpp and QKDResponderHandshake.cpp of cpp/libs/ssp21/src/crypto: a handshake
-- under a key that was distributed to both ends, which the request names by its identifier.
pub mod Store
pub mod Agreement
pub mod Replay
use ssp21_cpp.Base.{
  ℕ, Bool, true, false, not, Bytes, [], ◌∷◌, ◌==◌, if◌then◌else◌, Option, none, some,
}
use ssp21_cpp.Ser.{Ser4cpp, WSeq}
use ssp21_cpp.Wire.{ok, insufficient_space}
use ssp21_cpp.Wire.Enums.Handshake.{HandshakeError, HandshakeMode}
use ssp21_cpp.Wire.Enums.Suite.{HandshakeEphemeral}
use ssp21_cpp.Wire.Structs.Handshake.{CryptoSpec}
use ssp21_cpp.Wire.Messages.Bodies.{
  RequestHandshakeBegin, ReplyHandshakeBegin, reply_handshake_begin_write,
}
use ssp21_cpp.Session.{SecureBuffer, as_seq}
use ssp21_cpp.Session.State.{Exe4cpp, Session}
use ssp21_cpp.Session.Transmit.{FrameWriter, WriteResult}
use ssp21_cpp.Layer.Initiator.{IInitiatorHandshake, SessionLimits}
use ssp21_cpp.Layer.Responder.{IResponderHandshake, Result, success, failure}
use ssp21_cpp.Qix.{KeyRecord}
use ssp21_cpp.Handshake.{CryptoBackend, compute_hash}
use ssp21_cpp.Handshake.Algorithms.{Common, any, configure_common, default_common}
use ssp21_cpp.Handshake.Start.{
  is_empty, reply_of, initiator_keys, responder_keys, start_initiator, start_responder,
}

-- IKeySource.h, over the state of the source; `none` is the null pointer.
pub record IKeySource (K : Type 0) : Type 0 where
  pub consume_key : K → Option KeyRecord × K

-- IKeyLookup.h, likewise.
pub record IKeyLookup (K : Type 0) : Type 0 where
  pub find_and_consume_key : ℕ → K → Option SecureBuffer × K

-- The members of `QKDInitiatorHandshake` that change.
pub record QkdInitiator (K : Type 0) : Type 0 where
  pub key_source : K
  pub key : Option SecureBuffer
  pub key_id_buffer : Bytes
  pub time_request_tx : ℕ
  pub handshake_hash : SecureBuffer

-- The initiator.
module _ ⦃ser : Ser4cpp⦄ {K : Type 0} (source : IKeySource K) where
  -- What the buffer of eight bytes holds after the write into it.
  abbrev written_id : Bytes → Option WSeq → Bytes
  written_id buffer none = buffer
  written_id buffer (some dest) = dest.written

  abbrev key_found :
      QkdInitiator K → ℕ → Option SecureBuffer → Option (Bytes × Bytes) × QkdInitiator K
  key_found h id none = (none, h)
  key_found h id (some key) =
      let buffer =
        written_id h.key_id_buffer (ser.write_u64 id (record { space = 8; written = [] })) in
      (some ([], buffer), record h { key = some key; key_id_buffer = buffer })

  abbrev record_consumed :
      QkdInitiator K → Option KeyRecord × K → Option (Bytes × Bytes) × QkdInitiator K
  record_consumed h (none, rest) = (none, record h { key_source = rest })
  record_consumed h (some key_record, rest) =
      key_found (record h { key_source = rest }) key_record.id key_record.key

  unfoldable pub initialize_new_handshake : QkdInitiator K → Option (Bytes × Bytes) × QkdInitiator K
  initialize_new_handshake h =
      record_consumed (record h { key = none }) (source.consume_key h.key_source)

module _ {K : Type 0} (algorithms : Common) where
  unfoldable pub finalize_request_tx : Bytes → ℕ → QkdInitiator K → QkdInitiator K
  finalize_request_tx request_data now h = record h {
    time_request_tx = now;
    handshake_hash = algorithms.handshake.hash (request_data ∷ []);
  }

  unfoldable pub mix_handshake_hash : Bytes → QkdInitiator K → QkdInitiator K
  mix_handshake_hash input h = record h {
    handshake_hash = algorithms.handshake.hash (as_seq h.handshake_hash ∷ input ∷ []);
  }

  abbrev with_key :
      ⦃exe : Exe4cpp⦄
      → ReplyHandshakeBegin
      → Bytes
      → SessionLimits
      → ℕ
      → QkdInitiator K
      → Session
      → Option SecureBuffer
      → Bool × QkdInitiator K × Session
  with_key msg reply_data limits now h session none = (false, h, session)
  with_key msg reply_data limits now h session (some key) =
      if not (is_empty msg.mode_ephemeral)
      then (false, h, session)
      else if not (is_empty msg.mode_data)
      then (false, h, session)
      else let mixed = mix_handshake_hash reply_data h in
        let derived = algorithms.handshake.kdf (as_seq mixed.handshake_hash) (as_seq key ∷ []) in
        let started =
          start_initiator algorithms.session limits now mixed.time_request_tx
            (initiator_keys derived) session in
        (started.0, mixed, started.1)

  unfoldable pub initialize_session :
      ⦃exe : Exe4cpp⦄
      → ReplyHandshakeBegin
      → Bytes
      → SessionLimits
      → ℕ
      → QkdInitiator K
      → Session
      → Bool × QkdInitiator K × Session
  unfolding mix_handshake_hash
  initialize_session msg reply_data limits now h session =
      with_key msg reply_data limits now h session h.key

-- `IInitiatorHandshake`
unfoldable pub initiator :
    ⦃ser : Ser4cpp⦄
    → ⦃exe : Exe4cpp⦄ → {K : Type 0} → IKeySource K
    → Common
    → CryptoSpec
    → IInitiatorHandshake (QkdInitiator K)
initiator source algorithms crypto_suite = record {
  get_crypto_suite = record crypto_suite { handshake_ephemeral = HandshakeEphemeral.none };
  get_handshake_mode = HandshakeMode.quantum_key_distribution;
  initialize_new_handshake = initialize_new_handshake source;
  finalize_request_tx = finalize_request_tx algorithms;
  initialize_session = initialize_session algorithms;
}

-- The responder, over the state of its keys.
module _ ⦃ser : Ser4cpp⦄ ⦃exe : Exe4cpp⦄ {R K : Type 0} (backend : CryptoBackend R)
    (lookup : IKeyLookup K) where
  -- What `process` leaves.
  abbrev pub Processed : Type 0
  Processed = Result × K × Session

  abbrev pub reply_written :
      Common
      → RequestHandshakeBegin
      → Bytes
      → ℕ
      → K
      → Session
      → SecureBuffer
      → WriteResult
      → Processed
  reply_written algorithms msg msg_bytes now keys session shared_secret result = elim result.err [
    | insufficient_space ↦ (failure HandshakeError.unknown, keys, session)
    | ok ↦
        let handshake_hash = compute_hash algorithms.handshake.hash msg_bytes result.written in
        let derived =
          algorithms.handshake.kdf (as_seq handshake_hash) (as_seq shared_secret ∷ []) in
        (
          success result.frame,
          keys,
          start_responder algorithms.session msg.constraints now (responder_keys derived) session,
        )
  ]

  -- The algorithms are configured a second time, over the first.
  abbrev pub configured_again :
      RequestHandshakeBegin
      → Bytes
      → ℕ
      → FrameWriter
      → K
      → Session
      → SecureBuffer
      → HandshakeError × Common
      → Processed
  configured_again msg msg_bytes now writer keys session shared_secret (e, algorithms) =
      if any e
      then (failure e, keys, session)
      else reply_written algorithms msg msg_bytes now keys session shared_secret
          (writer.write (reply_handshake_begin_write (reply_of [] [])))

  abbrev pub key_looked_up :
      Common
      → RequestHandshakeBegin
      → Bytes
      → ℕ
      → FrameWriter
      → Session
      → Option SecureBuffer × K
      → Processed
  key_looked_up algorithms msg msg_bytes now writer session (none, keys) =
      (failure HandshakeError.key_not_found, keys, session)
  key_looked_up algorithms msg msg_bytes now writer session (some shared_secret, keys) =
      configured_again msg msg_bytes now writer keys session shared_secret
        (configure_common backend msg.spec algorithms)

  abbrev pub key_id_read :
      Common
      → RequestHandshakeBegin
      → Bytes
      → ℕ
      → FrameWriter
      → K
      → Session
      → Option (ℕ × Bytes)
      → Processed
  key_id_read algorithms msg msg_bytes now writer keys session none =
      (failure HandshakeError.bad_message_format, keys, session)
  key_id_read algorithms msg msg_bytes now writer keys session (some (key_id, rest)) =
      if not (is_empty rest)
      then (failure HandshakeError.bad_message_format, keys, session)
      else key_looked_up algorithms msg msg_bytes now writer session
          (lookup.find_and_consume_key key_id keys)

  abbrev pub process_configured :
      RequestHandshakeBegin
      → Bytes
      → ℕ
      → FrameWriter
      → K
      → Session
      → HandshakeError × Common
      → Processed
  process_configured msg msg_bytes now writer keys session (e, algorithms) =
      if any e
      then (failure e, keys, session)
      else key_id_read algorithms msg msg_bytes now writer keys session (ser.read_u64 msg.mode_data)

  -- `process`
  unfoldable pub process : RequestHandshakeBegin → Bytes → ℕ → FrameWriter → K → Session → Processed
  unfolding compute_hash
  process msg msg_bytes now writer keys session =
      if not (is_empty msg.mode_ephemeral)
      then (failure HandshakeError.bad_message_format, keys, session)
      else process_configured msg msg_bytes now writer keys session
          (configure_common backend msg.spec (default_common backend))

  -- `IResponderHandshake`
  unfoldable pub responder : IResponderHandshake K
  responder = record { process = process }
