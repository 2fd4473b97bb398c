-- ===== src/Wire/Tests.antt =====
-- Encodings of concrete values.
use ssp21_cpp.Base.{◌≤◌, ◌≡◌, refl, IsByte, All-append, [], ◌∷◌, ◌++◌, length, arith}
use ssp21_cpp.Ser.{WSeq, fill}
use ssp21_cpp.Ser.BigEndian.{big_endian}
use ssp21_cpp.Wire.{FormatError, Parsed}
use ssp21_cpp.Wire.VLength.Format.{encode, IsU32, encode-IsByte}
use ssp21_cpp.Wire.VLength.Reading.{read-encode, read_sound}
use ssp21_cpp.Wire.Enums.Handshake.{
  handshake_mode_spec, handshake_error_spec, public_key_type_spec, HandshakeError, HandshakeMode,
  PublicKeyType,
}
use ssp21_cpp.Wire.Enums.Suite.{
  handshake_ephemeral_spec, handshake_hash_spec, handshake_kdf_spec, session_nonce_mode_spec,
  session_crypto_mode_spec, HandshakeEphemeral, HandshakeHash, HandshakeKdf, SessionNonceMode,
  SessionCryptoMode,
}
use ssp21_cpp.Wire.Structs.Handshake.{Version, CryptoSpec}
use ssp21_cpp.Wire.Structs.Certificates.{
  CertificateBody, certificate_body_field, CertificateEnvelope, CertificateChain,
  certificate_chain_field,
}
use ssp21_cpp.Wire.Structs.CertificatesFormat.{
  IsCertificateBody, certificate_body_bytes, IsCertificateChain, certificate_chain_bytes,
  certificate_chain_field-IsCodec, certificate_body_field-IsCodec,
}
use ssp21_cpp.Wire.Structs.RoundTrip.{certificate_chain_read-write}
use ssp21_cpp.Wire.VLength
use ssp21_cpp.Wire.VLength.{num_values_bytes}
use ssp21_cpp.Wire.Messages.Bodies.{
  RequestHandshakeBegin, request_handshake_begin_read, request_handshake_begin_write,
  ReplyHandshakeBegin, ReplyHandshakeError, SessionData, session_data_read, session_data_write,
}
use ssp21_cpp.Wire.Messages.Format.{
  IsRequestHandshakeBegin, IsReplyHandshakeBegin, IsReplyHandshakeError, IsSessionData,
  session_data_field-IsCodec,
}
use ssp21_cpp.Wire.Messages.RoundTrip.{
  request_handshake_begin_wire, request_handshake_begin_read-write, reply_handshake_begin_wire,
  reply_handshake_error_wire, session_data_wire, session_data_read-wire, session_data_read-write,
  session_data_read_unique,
}

abbrev view : WSeq
view = record { space = 100; written = 9 ∷ [] }

abbrev version : Version
version = record { major_version = 0; minor_version = 1 }

abbrev spec : CryptoSpec
spec = record {
  handshake_ephemeral = HandshakeEphemeral.x25519;
  handshake_hash = HandshakeHash.sha256;
  handshake_kdf = HandshakeKdf.hkdf_sha256;
  session_nonce_mode = SessionNonceMode.strict_increment;
  session_crypto_mode = SessionCryptoMode.hmac_sha256_16;
}

read-encode_example : VLength.read (encode 300 ++ 7 ∷ []) ≡ Parsed.ok (300, 7 ∷ [])
read-encode_example = read-encode 300 (7 ∷ []) (omega arith)

read_sound_example : IsU32 300 × (encode 300 ++ [] ≡ encode 300 ++ [])
read_sound_example =
    read_sound (encode 300 ++ []) 300 [] (All-append IsByte (encode 300) [] (encode-IsByte 300) tt)
      (read-encode 300 [] (omega arith))

abbrev request_handshake_begin : RequestHandshakeBegin
request_handshake_begin = record {
  version = version;
  spec = spec;
  constraints = record { max_nonce = 100; max_session_duration = 3600000 };
  handshake_mode = HandshakeMode.shared_secret;
  mode_ephemeral = 1 ∷ 2 ∷ [];
  mode_data = [];
}

request_handshake_begin_fits : IsRequestHandshakeBegin request_handshake_begin
unfolding handshake_ephemeral_spec handshake_hash_spec handshake_kdf_spec session_nonce_mode_spec
    session_crypto_mode_spec handshake_mode_spec
request_handshake_begin_fits = (
  (omega arith, omega arith),
  (
    (refl, (refl, (refl, (refl, refl)))),
    (
      (omega arith, omega arith),
      (refl, ((omega arith, (omega arith, (omega arith, tt))), (omega arith, tt))),
    ),
  ),
)

request_handshake_begin_room : length (request_handshake_begin_wire request_handshake_begin) ≤ 100
unfolding encode num_values_bytes
request_handshake_begin_room = omega arith

request_handshake_begin_read-write_example :
    ((request_handshake_begin_write request_handshake_begin view).0.err ≡ FormatError.ok)
    × (request_handshake_begin_read
          (request_handshake_begin_write request_handshake_begin view).0.written
        ≡ Parsed.ok request_handshake_begin)
request_handshake_begin_read-write_example =
    request_handshake_begin_read-write request_handshake_begin view request_handshake_begin_fits
      request_handshake_begin_room

abbrev reply_handshake_begin : ReplyHandshakeBegin
reply_handshake_begin = record {
  version = version;
  mode_ephemeral = 1 ∷ 2 ∷ [];
  mode_data = 5 ∷ [];
}

reply_handshake_begin_fits : IsReplyHandshakeBegin reply_handshake_begin
reply_handshake_begin_fits = (
  (omega arith, omega arith),
  ((omega arith, (omega arith, (omega arith, tt))), (omega arith, (omega arith, tt))),
)

reply_handshake_begin_room : length (reply_handshake_begin_wire reply_handshake_begin) ≤ 100
unfolding encode num_values_bytes
reply_handshake_begin_room = omega arith

abbrev reply_handshake_error : ReplyHandshakeError
reply_handshake_error = record {
  version = version;
  handshake_error = HandshakeError.bad_message_format;
}

reply_handshake_error_fits : IsReplyHandshakeError reply_handshake_error
unfolding handshake_error_spec
reply_handshake_error_fits = ((omega arith, omega arith), refl)

reply_handshake_error_room : length (reply_handshake_error_wire reply_handshake_error) ≤ 100
unfolding encode num_values_bytes
reply_handshake_error_room = omega arith

abbrev session_data : SessionData
session_data = record {
  metadata = record { nonce = 7; valid_until_ms = 10000 };
  user_data = 1 ∷ 2 ∷ [];
  auth_tag = 5 ∷ [];
}

session_data_fits : IsSessionData session_data
session_data_fits = (
  (omega arith, omega arith),
  ((omega arith, (omega arith, (omega arith, tt))), (omega arith, (omega arith, tt))),
)

session_data_room : length (session_data_wire session_data) ≤ 100
unfolding encode num_values_bytes
session_data_room = omega arith

session_data_read-write_example :
    ((session_data_write session_data view).0.err ≡ FormatError.ok)
    × (session_data_read (session_data_write session_data view).0.written ≡ Parsed.ok session_data)
session_data_read-write_example =
    session_data_read-write session_data view session_data_fits session_data_room

session_data_read_unique_example : session_data_wire session_data ≡ session_data_wire session_data
session_data_read_unique_example =
    session_data_read_unique session_data (session_data_wire session_data)
      (session_data_wire session_data)
      (omega arith, session_data_field-IsCodec.bytes session_data session_data_fits)
      (omega arith, session_data_field-IsCodec.bytes session_data session_data_fits)
      (session_data_read-wire session_data session_data_fits)
      (session_data_read-wire session_data session_data_fits)

abbrev envelope : CertificateEnvelope
envelope = record { signature = 1 ∷ 2 ∷ []; certificate_body = 3 ∷ [] }

abbrev chain : CertificateChain
chain = record { certificates = envelope ∷ envelope ∷ [] }

chain_fits : IsCertificateChain chain
chain_fits = (
  omega arith,
  (
    ((omega arith, (omega arith, (omega arith, tt))), (omega arith, (omega arith, tt))),
    (((omega arith, (omega arith, (omega arith, tt))), (omega arith, (omega arith, tt))), tt),
  ),
)

chain_room : certificate_chain_field.size chain ≤ 100
unfolding encode num_values_bytes
chain_room =
    let wire : length (certificate_chain_bytes chain) ≤ 100 = omega arith in
    rw (certificate_chain_field-IsCodec.sized chain chain_fits) wire

certificate_chain_read-write_example :
    (certificate_chain_field.write chain view
      ≡ (FormatError.ok, fill view (certificate_chain_bytes chain)))
    × (certificate_chain_field.read (certificate_chain_bytes chain ++ 8 ∷ [])
        ≡ Parsed.ok (chain, 8 ∷ []))
certificate_chain_read-write_example =
    certificate_chain_read-write chain view (8 ∷ []) chain_fits chain_room

abbrev body : CertificateBody
body = record {
  valid_after = 0;
  valid_before = 1000;
  signing_level = 0;
  public_key_type = PublicKeyType.x25519;
  public_key = 1 ∷ 2 ∷ [];
  extensions = [];
}

body_fits : IsCertificateBody body
unfolding public_key_type_spec
body_fits = (
  omega arith,
  (
    omega arith,
    (omega arith, (refl, ((omega arith, (omega arith, (omega arith, tt))), (omega arith, tt)))),
  ),
)

body_room : certificate_body_field.size body ≤ 100
unfolding encode num_values_bytes
body_room =
    let wire : length (certificate_body_bytes body) ≤ 100 = omega arith in
    rw (certificate_body_field-IsCodec.sized body body_fits) wire
