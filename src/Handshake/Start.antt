-- ===== src/Handshake/Start.antt =====
-- What the handshakes of the three modes share (the `*InitiatorHandshake.cpp` and
-- `*ResponderHandshake.cpp` of cpp/libs/ssp21/src/crypto): the reply, and the start of a session at
-- either end.
use ssp21_cpp.Base.{ℕ, ◌-◌, ◌/◌, Bool, false, Bytes, length, ◌==◌, ltb, if◌then◌else◌}
use ssp21_cpp.Wire.Structs.Handshake.{SessionConstraints}
use ssp21_cpp.Wire.Messages.Bodies.{ReplyHandshakeBegin}
use ssp21_cpp.Session.{SecureBuffer, SessionKeys}
use ssp21_cpp.Session.State.{Exe4cpp, milliseconds, Algorithms, Session, initialize}
use ssp21_cpp.Layer.Initiator.{SessionLimits, get_version}

-- consts::crypto::nonce_length and x25519_key_length
abbrev pub nonce_length : ℕ
nonce_length = 32

abbrev pub x25519_key_length : ℕ
x25519_key_length = 32

-- `seq.is_empty()`
abbrev pub is_empty : Bytes → Bool
is_empty bytes = length bytes == 0

abbrev pub reply_of : Bytes → Bytes → ReplyHandshakeBegin
reply_of mode_ephemeral mode_data = record {
  version = get_version;
  mode_ephemeral = mode_ephemeral;
  mode_data = mode_data;
}

-- The outputs of the key derivation, in the order that either end passes them.
abbrev pub initiator_keys : SecureBuffer × SecureBuffer → SessionKeys
initiator_keys derived = record { rx_key = derived.1; tx_key = derived.0 }

abbrev pub responder_keys : SecureBuffer × SecureBuffer → SessionKeys
responder_keys derived = record { rx_key = derived.0; tx_key = derived.1 }

module _ ⦃exe : Exe4cpp⦄ where
  -- The end of the initiator's `initialize_session`.
  unfoldable pub start_initiator :
      Algorithms → SessionLimits → ℕ → ℕ → SessionKeys → Session → Bool × Session
  start_initiator algorithms limits now time_request_tx session_keys session =
      if ltb now time_request_tx
      then (false, session)
      else let elapsed_ms = now - time_request_tx in
        let session_start_time = now - elapsed_ms / 2 in
        initialize algorithms
          (record {
            session_start = session_start_time;
            max_nonce = limits.max_nonce_value;
            max_session_time = milliseconds limits.max_session_time_ms;
          })
          session_keys session

  -- The end of the responder's `process`, which does not look at what `initialize` returns.
  unfoldable pub start_responder :
      Algorithms → SessionConstraints → ℕ → SessionKeys → Session → Session
  start_responder algorithms constraints now session_keys session =
      (initialize algorithms
        (record {
          session_start = now;
          max_nonce = constraints.max_nonce;
          max_session_time = milliseconds constraints.max_session_duration;
        })
        session_keys session).1
