-- ===== src/Handshake/Tests.antt =====
-- Handshakes of the three modes at concrete inputs, over a toy backend.
use ssp21_cpp.Base.{
  List, ℕ, zero, suc, ◌*◌, ◌%◌, ◌≡◌, ◌≢◌, ◌≤◌, refl, ap, true, Bytes, [], ◌∷◌, All, IsByte, none,
  some, arith, length,
}
use native.Mathlib.Nat.{mul_comm}
use ssp21_cpp.Ser.{be64, Ser4cpp}
use ssp21_cpp.Ser.BigEndian.{big_endian}
use ssp21_cpp.Wire.{Parsed, FormatError}
use ssp21_cpp.Wire.Enums.Handshake.{HandshakeMode}
use ssp21_cpp.Wire.Enums.Suite.{
  HandshakeEphemeral, HandshakeHash, HandshakeKdf, SessionNonceMode, SessionCryptoMode,
}
use ssp21_cpp.Wire.Messages.Bodies.{
  RequestHandshakeBegin, reply_handshake_begin_read, reply_handshake_begin_write,
}
use ssp21_cpp.Wire.Messages.RoundTrip.{reply_handshake_begin_wire}
use ssp21_cpp.Session.{pass, SecureBuffer, length_32, verify_strict_increment}
use ssp21_cpp.Wire.VLength.{num_values_bytes}
use ssp21_cpp.Wire.VLength.Format.{encode}
use ssp21_cpp.Session.Configure.{configure}
use ssp21_cpp.Session.Mode.{mac_mode, SessionMode}
use ssp21_cpp.Session.State.{Exe4cpp, Session}
use ssp21_cpp.Session.Transmit.{FrameWriter}
use ssp21_cpp.Certificates.Handlers.{CertificateHandler, preshared_key, preshared_key_validate}
use ssp21_cpp.Layer.Initiator.{SessionLimits, get_version}
use ssp21_cpp.Layer.Responder.{Result, success}
use ssp21_cpp.Qix.{Status}
use ssp21_cpp.Qix.KeyStore.Runs.{added}
use ssp21_cpp.Qix.KeyStore
use ssp21_cpp.Qix.KeyStore.{QixKeyStore}
use ssp21_cpp.Handshake.{KeyPair, CryptoBackend}
use ssp21_cpp.Handshake.Algorithms.{
  Common, default_common, default_dh, configure_common, configure_dh,
}
use ssp21_cpp.Handshake.Start.{reply_of}
use ssp21_cpp.Handshake.SharedSecret
use ssp21_cpp.Handshake.SharedSecret.Agreement.{shared_secret_agreement}
use ssp21_cpp.Handshake.PublicKey
use ssp21_cpp.Handshake.PublicKey.Agreement.{IsTripleDh, public_key_agreement}
use ssp21_cpp.Handshake.Qkd
use ssp21_cpp.Handshake.Qkd.Store.{store_source, store_lookup}
use ssp21_cpp.Handshake.Qkd.Agreement.{qkd_agreement}
use ssp21_cpp.Handshake.Qkd.Replay.{Step, stored, requested, run_steps, served_once}
use ssp21_cpp.Handshake.Peers.{IsCryptoBackend, IsFrameWriter, IsPeer, IsBetween}

instance abbrev clock : Exe4cpp
clock = record { ticks_per_ms = 1000; positive = omega arith }

abbrev zeros : ℕ → Bytes
zeros zero = []
zeros (suc n) = 0 ∷ zeros n

abbrev first : Bytes → ℕ
first [] = 0
first (b ∷ bytes) = b

length-zeros : (n : ℕ) → length (zeros n) ≡ n
length-zeros zero = refl
length-zeros (suc n) = ap suc (length-zeros n)

zeros-IsByte : (n : ℕ) → All IsByte (zeros n)
zeros-IsByte zero = tt
zeros-IsByte (suc n) = (omega arith, zeros-IsByte n)

abbrev buffer : Bytes → SecureBuffer
buffer bytes = record { length = length_32; buffer = bytes }

-- A private key is a byte, and an exchange multiplies.
abbrev byte_of : SecureBuffer → ℕ
byte_of key = first key.buffer % 256

abbrev public_of : SecureBuffer → Bytes
public_of key = byte_of key ∷ zeros 31

abbrev key_pair : ℕ → KeyPair
key_pair n = record {
  public_key = buffer (public_of (buffer (n ∷ [])));
  private_key = buffer (n ∷ []);
}

abbrev mode : SessionMode
mode = mac_mode (λ key parts. 1 ∷ []) (λ a b. true) 1

abbrev toy : CryptoBackend ℕ
toy = record {
  sessions = record {
    supports_sha256 = true;
    supports_aes256_gcm = true;
    hmac_sha_256_trunc16 = mode;
    aes_256_gcm = mode;
  };
  supports_x25519 = true;
  hash_sha256 = λ parts. buffer [];
  hkdf_sha256 = λ salt ikm. (buffer (1 ∷ []), buffer (2 ∷ []));
  dh_x25519 = λ key public. pass (buffer ((byte_of key * first public) % 256 ∷ []));
  gen_keypair_x25519 = λ r. (key_pair r, suc r);
  gen_random = λ n r. (zeros n, suc r);
}

toy-IsCryptoBackend : IsCryptoBackend toy public_of
toy-IsCryptoBackend = record {
  first_32 = λ salt ikm. refl;
  second_32 = λ salt ikm. refl;
  random_length = λ n r. length-zeros n;
  random_bytes = λ n r. zeros-IsByte n;
  key_pair = λ r. refl;
  public_length = λ key. refl;
  public_bytes = λ key. (omega arith, zeros-IsByte 31);
  dh_comm = λ a b. ap (λ (n : ℕ). pass (buffer (n % 256 ∷ []))) (mul_comm (byte_of a) (byte_of b));
}

abbrev writer : FrameWriter
writer = record {
  write = λ payload. record {
    err = FormatError.ok;
    written = (payload (record { space = 60; written = [] })).0.written;
    frame = (payload (record { space = 60; written = [] })).0.written;
  };
  max_payload_size = 60;
}

writer-IsFrameWriter : IsFrameWriter writer
writer-IsFrameWriter payload bytes writes room =
    rw (writes (record { space = 60; written = [] }) room) (bytes, refl)

abbrev request_of : HandshakeEphemeral → HandshakeMode → Bytes → Bytes → RequestHandshakeBegin
request_of type handshake_mode mode_ephemeral mode_data = record {
  version = get_version;
  spec = record {
    handshake_ephemeral = type;
    handshake_hash = HandshakeHash.sha256;
    handshake_kdf = HandshakeKdf.hkdf_sha256;
    session_nonce_mode = SessionNonceMode.strict_increment;
    session_crypto_mode = SessionCryptoMode.hmac_sha256_16;
  };
  constraints = record { max_nonce = 9; max_session_duration = 5000 };
  handshake_mode = handshake_mode;
  mode_ephemeral = mode_ephemeral;
  mode_data = mode_data;
}

abbrev session : Session
session = record {
  valid = true;
  statistics = record {
    num_init = 1;
    num_user_data_without_session = 0;
    num_auth_fail = 0;
    num_ttl_expiration = 0;
    num_nonce_fail = 0;
    num_success = 0;
  };
  ttl_pad_ms = 10;
  rx_nonce = 4;
  tx_nonce = 4;
  keys = record { rx_key = buffer []; tx_key = buffer [] };
  algorithms = record { verify_nonce = verify_strict_increment; session_mode = mode };
  parameters = record { session_start = 5000; max_nonce = 3; max_session_time = 100000 };
  encrypt_buffer = 100;
}

abbrev key : SecureBuffer
key = buffer (7 ∷ [])

abbrev algorithms : Common
algorithms = default_common toy

abbrev secret_initiator : SharedSecret.SharedSecretInitiator ℕ
secret_initiator = record {
  nonce_buffer = [];
  time_request_tx = 0;
  handshake_hash = buffer [];
  random = 3;
}

abbrev secret_request : RequestHandshakeBegin
secret_request = request_of HandshakeEphemeral.nonce HandshakeMode.shared_secret (zeros 32) []

abbrev secret_served : Result × ℕ × Session
secret_served = SharedSecret.process toy key secret_request (8 ∷ []) 70 writer 5 session

shared_secret_agreement_example :
    let reply = reply_of (zeros 32) [] in
    let response = reply_handshake_begin_wire reply in
    (frame : Bytes) × (writer.write (reply_handshake_begin_write reply)
      ≡ record { err = FormatError.ok; written = response; frame = frame })
    × (secret_served.0 ≡ success frame)
    × (reply_handshake_begin_read response ≡ Parsed.ok reply)
    × ((limits : SessionLimits) (arrived : ℕ) (t : Session)
        → 60 ≤ arrived
        → let begun = (SharedSecret.initialize_new_handshake toy secret_initiator).1 in
          let h = SharedSecret.finalize_request_tx algorithms (8 ∷ []) 60 begun in
          let r =
            SharedSecret.initialize_session algorithms key reply response limits arrived h t in
          (r.0 ≡ true) × IsBetween 60 arrived r.2 × IsPeer r.2 secret_served.2)
unfolding configure_common SharedSecret.initialize_new_handshake configure encode num_values_bytes
shared_secret_agreement_example =
    shared_secret_agreement toy public_of key algorithms secret_initiator secret_request (8 ∷ []) 60
      70 writer 5 session toy-IsCryptoBackend refl refl writer-IsFrameWriter (omega arith)

-- Each end has the other's static key.
abbrev initiator_handler : CertificateHandler
initiator_handler = preshared_key (public_of (key_pair 13).private_key)

abbrev responder_handler : CertificateHandler
responder_handler = preshared_key (public_of (key_pair 11).private_key)

abbrev public_initiator : PublicKey.PublicKeyInitiator ℕ
public_initiator = record {
  local_ephemeral_keys = key_pair 0;
  time_request_tx = 0;
  handshake_hash = buffer [];
  random = 3;
}

abbrev public_request : RequestHandshakeBegin
public_request =
    request_of HandshakeEphemeral.x25519 HandshakeMode.public_keys
      (public_of (key_pair 3).private_key) []

abbrev public_served : Result × ℕ × Session
public_served =
    PublicKey.process toy (key_pair 13) responder_handler public_request (8 ∷ []) 70 writer 5
      session

exchanges :
    IsTripleDh toy public_of
      (key_pair 11).private_key
      (key_pair 3).private_key
      (key_pair 13).private_key
      (key_pair 5).private_key
      (record { dh1 = 15 ∷ []; dh2 = 39 ∷ []; dh3 = 55 ∷ [] })
exchanges = record {
  dh1 = buffer (15 ∷ []);
  dh2 = buffer (39 ∷ []);
  dh3 = buffer (55 ∷ []);
  ephemerals = refl;
  to_static = refl;
  from_static = refl;
  results = refl;
}

public_key_agreement_example :
    let reply = reply_of (public_of (key_pair 5).private_key) [] in
    let response = reply_handshake_begin_wire reply in
    (frame : Bytes) × (writer.write (reply_handshake_begin_write reply)
      ≡ record { err = FormatError.ok; written = response; frame = frame })
    × (public_served.0 ≡ success frame)
    × (reply_handshake_begin_read response ≡ Parsed.ok reply)
    × ((limits : SessionLimits) (arrived : ℕ) (t : Session)
        → 60 ≤ arrived
        → let begun =
            (PublicKey.initialize_new_handshake
              (default_dh toy)
              initiator_handler
              public_initiator).1 in
          let h = PublicKey.finalize_request_tx algorithms (8 ∷ []) 60 begun in
          let r =
            PublicKey.initialize_session algorithms
              (default_dh toy)
              (key_pair 11)
              initiator_handler
              reply
              response
              limits
              arrived
              h
              t in
          (r.0 ≡ true) × IsBetween 60 arrived r.2 × IsPeer r.2 public_served.2)
unfolding configure_common configure_dh configure PublicKey.initialize_new_handshake preshared_key
    preshared_key_validate encode num_values_bytes
public_key_agreement_example =
    public_key_agreement toy public_of (key_pair 11) (key_pair 13) initiator_handler
      responder_handler algorithms (default_dh toy) public_initiator public_request (8 ∷ []) 60 70
      writer 5 session (record { dh1 = 15 ∷ []; dh2 = 39 ∷ []; dh3 = 55 ∷ [] }) toy-IsCryptoBackend
      refl refl refl refl refl (omega arith, tt) exchanges writer-IsFrameWriter (omega arith)

abbrev store : QixKeyStore
store = record { max_cached_keys = 2; key_map = record { id = 4; key = some key } ∷ [] }

abbrev used : QixKeyStore
used = record { max_cached_keys = 2; key_map = [] }

abbrev qkd_initiator : Qkd.QkdInitiator QixKeyStore
qkd_initiator = record {
  key_source = store;
  key = none;
  key_id_buffer = zeros 8;
  time_request_tx = 0;
  handshake_hash = buffer [];
}

abbrev qkd_request : RequestHandshakeBegin
qkd_request = request_of HandshakeEphemeral.none HandshakeMode.quantum_key_distribution [] (be64 4)

abbrev qkd_served : Result × QixKeyStore × Session
qkd_served = Qkd.process toy store_lookup qkd_request (8 ∷ []) 70 writer store session

qkd_agreement_example :
    let reply = reply_of [] [] in
    let response = reply_handshake_begin_wire reply in
    (frame : Bytes) × (writer.write (reply_handshake_begin_write reply)
      ≡ record { err = FormatError.ok; written = response; frame = frame })
    × (qkd_served.0 ≡ success frame)
    × (qkd_served.1 ≡ used)
    × (reply_handshake_begin_read response ≡ Parsed.ok reply)
    × ((limits : SessionLimits) (arrived : ℕ) (t : Session)
        → 60 ≤ arrived
        → let begun = (Qkd.initialize_new_handshake store_source qkd_initiator).1 in
          let h = Qkd.finalize_request_tx algorithms (8 ∷ []) 60 begun in
          let r = Qkd.initialize_session algorithms reply response limits arrived h t in
          (r.0 ≡ true) × IsBetween 60 arrived r.2 × IsPeer r.2 qkd_served.2)
unfolding configure_common configure Qkd.initialize_new_handshake store_source store_lookup encode
    num_values_bytes KeyStore.consume_key KeyStore.find_and_consume_key
qkd_agreement_example =
    qkd_agreement toy store_source store_lookup public_of algorithms qkd_initiator
      (record { id = 4; key = some key }) key used qkd_request (8 ∷ []) 60 70 writer store used
      session toy-IsCryptoBackend refl refl refl (omega arith) refl refl writer-IsFrameWriter
      (omega arith)

first_served : (frame : Bytes) × (qkd_served.0 ≡ success frame)
unfolding configure_common configure Qkd.initialize_new_handshake store_source store_lookup encode
    num_values_bytes KeyStore.consume_key KeyStore.find_and_consume_key
first_served =
    let r =
      qkd_agreement toy store_source store_lookup public_of algorithms qkd_initiator
        (record { id = 4; key = some key }) key used qkd_request (8 ∷ []) 60 70 writer store used
        session toy-IsCryptoBackend refl refl refl (omega arith) refl refl writer-IsFrameWriter
        (omega arith) in
    (r.0, r.2)

-- The key of another id arrives, and the same request comes again, before it is tried once more.
abbrev between : List (Step toy)
between =
    stored (added (record { key_id = 9; key_data = zeros 32; status = Status.ok }))
    ∷ requested qkd_request (8 ∷ []) 75 writer session
    ∷ []

four_read : Ser4cpp.read_u64 big_endian qkd_request.mode_data ≡ some (4, [])
four_read = refl

served_once_example :
    (Qkd.process toy store_lookup qkd_request
      (9 ∷ [])
      80
      writer
      (run_steps toy between qkd_served.1)
      session).0
    ≢ success []
served_once_example =
    served_once toy 4 qkd_request qkd_request (8 ∷ []) (9 ∷ []) 70 80 writer writer store session
      session first_served.0 [] between (record { sorted = (tt, tt); bounded = omega arith })
      four_read first_served.1 (λ same. absurd (omega (arith, same)), (tt, tt)) four_read
