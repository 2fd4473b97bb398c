-- ===== src/Session/Tests.antt =====
-- Runs of sessions on concrete messages.
use ssp21_cpp.Base.{
  All, ◌⊎◌, ℕ, ◌+◌, ◌*◌, ◌≤◌, ◌<◌, ◌≡◌, ◌≢◌, ◌↔◌, refl, Bool, true, false, ◌&&◌, Bytes, List, [],
  ◌∷◌, ◌++◌, ◌==◌, ==_refl, arith,
}
use ssp21_cpp.Ser.BigEndian.{big_endian}
use ssp21_cpp.Wire.{FormatError}
use ssp21_cpp.Wire.Structs.Handshake.{AuthMetadata}
use ssp21_cpp.Wire.Messages.Bodies.{SessionData, session_data_write}
use ssp21_cpp.Wire.Enums.Handshake.{HandshakeError}
use ssp21_cpp.Wire.Enums.Suite.{SessionNonceMode, SessionCryptoMode}
use ssp21_cpp.Session.Configure.{Backend, configure, configure_mode, configure-IsIncreasing}
use ssp21_cpp.Session.{
  verify_strict_increment, SecureBuffer, length_32, verify_greater_than_last, pass, fail, crypto,
  empty_user_data, mac_auth_fail, max_nonce_exceeded,
}
use ssp21_cpp.Session.Mode.{
  SessionMode, mac_mode, read, write, calc_user_data_tx_length, aead_mac_encrypt, aead_mac_decrypt,
  message_of,
}
use ssp21_cpp.Session.Mode.RoundTrip.{mac_read-pass, tag_of}
use ssp21_cpp.Session.State.{Exe4cpp, Session, reset}
use ssp21_cpp.Session.State.Closed.{
  Operation, received, received_auth, transmitted, transmitted_auth, IsRefusal, answers,
  reset_refuses,
}
use ssp21_cpp.Session.Receive.{
  validate_session_data, validate_session_data_with_nonce_func, refuse_empty, check_payload,
  count_auth_fail,
}
use ssp21_cpp.Session.Receive.Checks.{
  IsFresh, take_nonce, payload_of, validate_session_data-pass, validate_session_data-fail,
  validate_session_data-accepts,
}
use ssp21_cpp.Session.Receive.Replay.{
  IsIncreasing, Arrival, Increasing, accepted, accepted-Increasing,
  verify_greater_than_last-IsIncreasing,
}
use ssp21_cpp.Session.Transmit.{
  FrameWriter, format_session_data, format_session_data_no_nonce_check, send, frame_of,
  session_metadata,
}
use ssp21_cpp.Session.Transmit.Nonces.{IsSent, format_session_data-pass, format_session_data-fail}

instance abbrev clock : Exe4cpp
clock = record { ticks_per_ms = 1000; positive = omega arith }

abbrev eight : Bytes
eight = 1 ∷ 2 ∷ 3 ∷ 4 ∷ 5 ∷ 6 ∷ 7 ∷ 8 ∷ []

abbrev key : SecureBuffer
key = record { length = length_32; buffer = eight ++ (eight ++ (eight ++ eight)) }

abbrev total : Bytes → ℕ
total [] = 0
total (b ∷ bytes) = b + total bytes

abbrev total_of : List Bytes → ℕ
total_of [] = 0
total_of (bytes ∷ more) = total bytes + 3 * total_of more

abbrev calc : Bytes → List Bytes → Bytes
calc k parts = total k ∷ total_of parts ∷ []

abbrev equal : Bytes → Bytes → Bool
equal [] [] = true
equal (a ∷ xs) (b ∷ ys) = (a == b) && equal xs ys
equal _ _ = false

equal_refl : (b : Bytes) → equal b b ≡ true
equal_refl [] = refl
equal_refl (b ∷ bytes) = rw (==_refl b, equal_refl bytes)

abbrev mode : SessionMode
mode = mac_mode calc equal 16

abbrev session : ℕ → ℕ → Session
session rx tx = record {
  valid = true;
  statistics = record {
    num_init = 1;
    num_user_data_without_session = 0;
    num_auth_fail = 0;
    num_ttl_expiration = 0;
    num_nonce_fail = 0;
    num_success = 0;
  };
  ttl_pad_ms = 10;
  rx_nonce = rx;
  tx_nonce = tx;
  keys = record { rx_key = key; tx_key = key };
  algorithms = record { verify_nonce = verify_greater_than_last; session_mode = mode };
  parameters = record { session_start = 5000; max_nonce = 3; max_session_time = 100000 };
  encrypt_buffer = 100;
}

abbrev metadata : ℕ → AuthMetadata
metadata nonce = record { nonce = nonce; valid_until_ms = 20 }

abbrev message : ℕ → Bytes → SessionData
message nonce bytes = record {
  metadata = metadata nonce;
  user_data = bytes;
  auth_tag =
      tag_of calc equal 16 key
        (record { metadata = metadata nonce; user_data = bytes; auth_tag = [] });
}

abbrev arrival : ℕ → Arrival
arrival nonce = record { message = message nonce eight; now = 7000; dest = 50 }

abbrev writer : FrameWriter
writer = record {
  write = λ payload. record {
    err = FormatError.ok;
    written = [];
    frame = (payload (record { space = 60; written = [] })).0.written;
  };
  max_payload_size = 60;
}

accepted-Increasing_example :
    Increasing 0 3
      (accepted (arrival 1 ∷ arrival 1 ∷ arrival 3 ∷ arrival 2 ∷ arrival 4 ∷ []) (session 0 0))
accepted-Increasing_example =
    accepted-Increasing (arrival 1 ∷ arrival 1 ∷ arrival 3 ∷ arrival 2 ∷ arrival 4 ∷ [])
      (session 0 0) verify_greater_than_last-IsIncreasing

abbrev requests : List (ℕ × Bytes)
requests = (6000, eight) ∷ (7000, eight) ∷ (8000, eight) ∷ []

payload_run : payload_of (message 1 eight) 50 (session 0 0) ≡ pass eight
unfolding payload_of tag_of
payload_run =
    (mac_read-pass calc equal 16 key (message 1 eight) 50 eight).1
      (refl, omega arith, equal_refl (tag_of calc equal 16 key (message 1 eight)), refl)

fresh : IsFresh verify_greater_than_last (message 1 eight) 7000 (session 0 0)
fresh = record {
  no_rollback = omega arith;
  in_session = omega arith;
  alive = omega arith;
  max_nonce = omega arith;
  verified = refl;
}

validate_session_data-accepts_example :
    validate_session_data (message 1 eight) 7000 50 (session 0 0)
    ≡ (pass eight, take_nonce (message 1 eight) (session 0 0))
validate_session_data-accepts_example =
    validate_session_data-accepts (message 1 eight) 7000 50 1 (2 ∷ 3 ∷ 4 ∷ 5 ∷ 6 ∷ 7 ∷ 8 ∷ [])
      (session 0 0) refl payload_run fresh

accepted_first :
    validate_session_data (message 1 eight) 7000 50 (session 0 0)
    ≡ (pass eight, take_nonce (message 1 eight) (session 0 0))
accepted_first =
    validate_session_data-accepts (message 1 eight) 7000 50 1 (2 ∷ 3 ∷ 4 ∷ 5 ∷ 6 ∷ 7 ∷ 8 ∷ [])
      (session 0 0) refl payload_run fresh

validate_session_data-pass_example :
    (true ≡ true)
    × (payload_of (message 1 eight) 50 (session 0 0) ≡ pass eight)
    × IsFresh verify_greater_than_last (message 1 eight) 7000 (session 0 0)
    × (take_nonce (message 1 eight) (session 0 0) ≡ take_nonce (message 1 eight) (session 0 0))
    × (eight ≢ [])
validate_session_data-pass_example =
    validate_session_data-pass (message 1 eight) 7000 50 (session 0 0)
      (take_nonce (message 1 eight) (session 0 0)) eight accepted_first

-- A message whose tag is wrong.
abbrev forged : SessionData
forged = record { metadata = metadata 1; user_data = eight; auth_tag = [] }

abbrev counted : Session
counted = count_auth_fail (session 0 0)

forged_run :
    validate_session_data forged 7000 50 (session 0 0) ≡ (fail (crypto mac_auth_fail), counted)
unfolding validate_session_data validate_session_data_with_nonce_func refuse_empty check_payload
    read aead_mac_decrypt
forged_run = refl

other : crypto mac_auth_fail ≢ crypto empty_user_data
other e = ground arith

validate_session_data-fail_example :
    counted ≡ record (session 0 0) { statistics = counted.statistics }
validate_session_data-fail_example =
    validate_session_data-fail forged 7000 50 (session 0 0) counted (crypto mac_auth_fail)
      forged_run other

mac_read-pass_example : (read mode key (message 1 eight) 50 ≡ pass eight) ↔ (
    (true ≡ true)
    × (50 ≤ 65535)
    × (equal (tag_of calc equal 16 key (message 1 eight)) (message 1 eight).auth_tag ≡ true)
    × (eight ≡ eight))
mac_read-pass_example = mac_read-pass calc equal 16 key (message 1 eight) 50 eight

write_run : write mode key (metadata 1) eight 100 ≡ pass (message 1 eight, [])
unfolding write calc_user_data_tx_length message_of aead_mac_encrypt tag_of
write_run = refl

abbrev frame : Bytes
frame =
    (session_data_write
      (record {
        metadata = session_metadata (session 0 1) 2000;
        user_data = eight;
        auth_tag = tag_of calc equal 16 key (record {
          metadata = session_metadata (session 0 1) 2000;
          user_data = eight;
          auth_tag = [];
        });
      })
      (record { space = 60; written = [] })).0.written

send_run : format_session_data writer 7000 eight (session 0 1) ≡ (pass frame, session 0 2, [])
unfolding format_session_data format_session_data_no_nonce_check send frame_of write
    calc_user_data_tx_length message_of aead_mac_encrypt tag_of
send_run = refl

format_session_data-pass_example :
    (1 < 3)
    × IsSent writer 7000 eight (session 0 1) frame []
    × (session 0 2 ≡ record (session 0 1) { tx_nonce = 2 })
format_session_data-pass_example =
    format_session_data-pass writer 7000 eight (session 0 1) (session 0 2) frame [] (omega arith)
      send_run

exceeded_run :
    format_session_data writer 7000 eight (session 0 3)
    ≡ (fail (crypto max_nonce_exceeded), session 0 3, eight)
unfolding format_session_data
exceeded_run = refl

format_session_data-fail_example : session 0 3 ≡ session 0 3
format_session_data-fail_example =
    format_session_data-fail writer 7000 eight (session 0 3) (session 0 3)
      (crypto max_nonce_exceeded) eight exceeded_run

abbrev asked : List Operation
asked =
    received (message 1 eight) 7000 50
    ∷ transmitted writer 7000 eight
    ∷ received_auth (message 0 eight) 8000 50
    ∷ transmitted_auth writer 8000 eight
    ∷ []

reset_refuses_example : All IsRefusal (answers asked (reset (session 0 1)))
reset_refuses_example = reset_refuses (session 0 1) asked

abbrev backend : Backend
backend = record {
  supports_sha256 = true;
  supports_aes256_gcm = false;
  hmac_sha_256_trunc16 = mode;
  aes_256_gcm = mode;
}

configure_run :
    configure backend SessionNonceMode.strict_increment SessionCryptoMode.hmac_sha256_16
      (session 0 0).algorithms
    ≡ (HandshakeError.none, record { verify_nonce = verify_strict_increment; session_mode = mode })
unfolding configure configure_mode
configure_run = refl

configure-IsIncreasing_example :
    IsIncreasing verify_strict_increment × ((mode ≡ mode) ⊎ (mode ≡ mode))
configure-IsIncreasing_example =
    configure-IsIncreasing backend SessionNonceMode.strict_increment
      SessionCryptoMode.hmac_sha256_16 (session 0 0).algorithms
      (record { verify_nonce = verify_strict_increment; session_mode = mode }) configure_run
