-- ===== src/Layer/Tests.antt =====
-- An initiator and a responder at work on concrete events.
use ssp21_cpp.Base.{
  refl, inr, Bytes, ◌⊎◌, ℕ, suc, ◌≡◌, Bool, true, false, [], ◌∷◌, none, some, arith,
}
use ssp21_cpp.Ser.BigEndian.{big_endian}
use ssp21_cpp.Wire.{FormatError}
use ssp21_cpp.Wire.Enums.Handshake.{HandshakeMode}
use ssp21_cpp.Wire.Enums.Suite.{
  HandshakeEphemeral, HandshakeHash, HandshakeKdf, SessionNonceMode, SessionCryptoMode,
}
use ssp21_cpp.Wire.Messages.Bodies.{
  RequestHandshakeBegin, request_handshake_begin_write, SessionData,
}
use ssp21_cpp.Session.{SecureBuffer, length_32, verify_greater_than_last}
use ssp21_cpp.Session.Mode.{mac_mode}
use ssp21_cpp.Session.State.{Exe4cpp, Session}
use ssp21_cpp.Session.Transmit.{FrameWriter}
use ssp21_cpp.Layer.{CryptoLayer, Surroundings}
use ssp21_cpp.Layer.Transmission
use ssp21_cpp.Layer.Initiator.{
  wait_for_auth_reply, response, Params, SessionLimits, IInitiatorHandshake, Initiator,
  response_timed_out, auth, handle, retry_timed_out, request_of, on_response_timer, on_retry_timer,
}
use ssp21_cpp.Layer.Initiator.Diagram.{IsMove, IsArmed, fired, handle-IsMove}
use ssp21_cpp.Layer.Initiator.Retry.{IsRetried, missing_reply-IsRetried}
use ssp21_cpp.Layer.Initiator.Activation
use ssp21_cpp.Layer.Initiator.Activation.{handle-IsActivation}
use ssp21_cpp.Layer.Responder.{success, IResponderHandshake, on_request, on_auth_session}
use ssp21_cpp.Layer.Responder.Acceptance
use ssp21_cpp.Layer.Responder.Acceptance.{responder-IsActivation}

instance abbrev clock : Exe4cpp
clock = record { ticks_per_ms = 1000; positive = omega arith }

abbrev key : SecureBuffer
key = record { length = length_32; buffer = [] }

-- A session whose tags are all the same.
abbrev session : Bool → Session
session valid = record {
  valid = valid;
  statistics = record {
    num_init = 1;
    num_user_data_without_session = 0;
    num_auth_fail = 0;
    num_ttl_expiration = 0;
    num_nonce_fail = 0;
    num_success = 0;
  };
  ttl_pad_ms = 10;
  rx_nonce = 0;
  tx_nonce = 0;
  keys = record { rx_key = key; tx_key = key };
  algorithms = record {
    verify_nonce = verify_greater_than_last;
    session_mode = mac_mode (λ key parts. 1 ∷ []) (λ a b. true) 1;
  };
  parameters = record { session_start = 5000; max_nonce = 3; max_session_time = 100000 };
  encrypt_buffer = 100;
}

abbrev auth_message : SessionData
auth_message = record {
  metadata = record { nonce = 0; valid_until_ms = 20 };
  user_data = 4 ∷ [];
  auth_tag = 1 ∷ [];
}

abbrev writer : FrameWriter
writer = record {
  write = λ payload. record {
    err = FormatError.ok;
    written = (payload (record { space = 60; written = [] })).0.written;
    frame = (payload (record { space = 60; written = [] })).0.written;
  };
  max_payload_size = 60;
}

-- The lower layer counts what is sent, the upper one does nothing.
abbrev surroundings : {D : Type 0} → Surroundings D ℕ
surroundings = record {
  frame_writer = writer;
  lower = record {
    is_tx_ready = λ sent. true;
    start_tx_from_upper = λ frame sent. (true, suc sent);
    start_rx_from_upper = λ sent. ([], sent);
  };
  upper = λ call c. c;
}

abbrev layer : {D : Type 0} → D → CryptoLayer D ℕ
layer derived = record {
  is_open_flag = true;
  upper_is_open = false;
  processing = false;
  sessions = record { active = session false; pending = session true };
  tx_state = Transmission.reset;
  payload_data = [];
  payload_size = 50;
  derived = derived;
  lower = 0;
}

abbrev handshakes : IInitiatorHandshake ℕ
handshakes = record {
  get_crypto_suite = record {
    handshake_ephemeral = HandshakeEphemeral.nonce;
    handshake_hash = HandshakeHash.sha256;
    handshake_kdf = HandshakeKdf.hkdf_sha256;
    session_nonce_mode = SessionNonceMode.greater_than_last_rx;
    session_crypto_mode = SessionCryptoMode.hmac_sha256_16;
  };
  get_handshake_mode = HandshakeMode.shared_secret;
  initialize_new_handshake = λ h. (some (1 ∷ 2 ∷ [], []), h);
  finalize_request_tx = λ written now h. now;
  initialize_session = λ msg bytes limits now h s. (true, h, s);
}

abbrev params : Params
params = record {
  response_timeout = 30;
  retry_timeout = 90;
  nonce_renegotiation_trigger_value = 100;
  session_time_renegotiation_trigger_ms = 1000;
}

abbrev limits : SessionLimits
limits = record { max_nonce_value = 200; max_session_time_ms = 5000 }

abbrev waiting : CryptoLayer (Initiator ℕ) ℕ
waiting = layer (record {
  handshake_state = wait_for_auth_reply;
  handshake = 0;
  response_and_retry_timer = response 30;
  session_timeout_timer = none;
  handshake_required = true;
})

-- No answer came in time.
handle-IsMove_example :
    IsMove true wait_for_auth_reply response_timed_out
      (handle surroundings handshakes params limits response_timed_out 7000
        (fired response_timed_out waiting)).0
    × IsArmed params
        (handle surroundings handshakes params limits response_timed_out 7000
          (fired response_timed_out waiting)).0
        (handle surroundings handshakes params limits response_timed_out 7000
          (fired response_timed_out waiting)).1.derived.response_and_retry_timer
handle-IsMove_example =
    handle-IsMove surroundings handshakes params limits response_timed_out 7000 waiting refl refl

abbrev request : Bytes
request =
    (request_handshake_begin_write
      (request_of surroundings handshakes params limits (1 ∷ 2 ∷ [], []))
      (record { space = 60; written = [] })).0.written

abbrev waited : CryptoLayer (Initiator ℕ) ℕ
waited =
    on_response_timer surroundings handshakes params limits 7000 (fired response_timed_out waiting)

missing_reply-IsRetried_example :
    IsRetried surroundings handshakes params limits waiting waited
      (on_retry_timer surroundings handshakes params limits 8000 (fired retry_timed_out waited))
      request
missing_reply-IsRetried_example =
    missing_reply-IsRetried surroundings handshakes params limits 7000 8000 waiting (1 ∷ 2 ∷ [], [])
      0 request request (inr refl) refl refl refl

handle-IsActivation_example :
    Activation.Keeps surroundings handshakes params limits waiting
      (handle surroundings handshakes params limits (auth auth_message) 7000 waiting).1
    ⊎ ((msg : SessionData) × (auth auth_message ≡ auth msg)
        × Activation.IsActivation surroundings handshakes params limits msg 7000 waiting
            (handle surroundings handshakes params limits (auth auth_message) 7000 waiting))
handle-IsActivation_example =
    handle-IsActivation surroundings handshakes params limits (auth auth_message) 7000 waiting

abbrev responses : IResponderHandshake ℕ
responses = record { process = λ msg raw now writer h s. (success (1 ∷ []), h, s) }

responder-IsActivation_example :
    ((msg : RequestHandshakeBegin)
      → Acceptance.Keeps surroundings responses
          (layer 0)
          (on_request surroundings responses msg (9 ∷ []) 7000 (layer 0)))
    × ((msg : SessionData)
        → Acceptance.Keeps surroundings responses
            (layer 0)
            (on_auth_session surroundings responses msg (9 ∷ []) 7000 (layer 0))
          ⊎ Acceptance.IsActivation surroundings responses msg 7000
              (layer 0)
              (on_auth_session surroundings responses msg (9 ∷ []) 7000 (layer 0)))
responder-IsActivation_example =
    responder-IsActivation surroundings responses (layer 0) 7000 (9 ∷ [])
