-- ===== src/Wire/Enums/Handshake.antt =====
-- The enumerations of messages, handshakes and certificates (crypto/gen): the types and the two
-- conversions of each `Spec`.
use ssp21_cpp.Base.{ℕ, Bool, true, false, ◌==◌, if◌then◌else◌}
use ssp21_cpp.Wire.Fields.{Spec}

pub data Function : Type 0 where
  request_handshake_begin reply_handshake_begin reply_handshake_error session_data undefined :
      Function

function_to_type : Function → ℕ
function_to_type Function.request_handshake_begin = 0
function_to_type Function.reply_handshake_begin = 1
function_to_type Function.reply_handshake_error = 2
function_to_type Function.session_data = 3
function_to_type Function.undefined = 0xff

function_from_type : ℕ → Function
function_from_type arg =
    if arg == 0
    then Function.request_handshake_begin
    else if arg == 1
    then Function.reply_handshake_begin
    else if arg == 2
    then Function.reply_handshake_error
    else if arg == 3
    then Function.session_data
    else Function.undefined

function_is_undefined : Function → Bool
function_is_undefined Function.undefined = true
function_is_undefined _ = false

unfoldable pub function_spec : Spec Function
unfolding function_to_type function_from_type function_is_undefined
function_spec = record {
  from_type = function_from_type;
  to_type = function_to_type;
  is_undefined = function_is_undefined;
}

pub data HandshakeMode : Type 0 where
  shared_secret public_keys quantum_key_distribution industrial_certificates undefined :
      HandshakeMode

handshake_mode_to_type : HandshakeMode → ℕ
handshake_mode_to_type HandshakeMode.shared_secret = 0
handshake_mode_to_type HandshakeMode.public_keys = 1
handshake_mode_to_type HandshakeMode.quantum_key_distribution = 2
handshake_mode_to_type HandshakeMode.industrial_certificates = 3
handshake_mode_to_type HandshakeMode.undefined = 0xff

handshake_mode_from_type : ℕ → HandshakeMode
handshake_mode_from_type arg =
    if arg == 0
    then HandshakeMode.shared_secret
    else if arg == 1
    then HandshakeMode.public_keys
    else if arg == 2
    then HandshakeMode.quantum_key_distribution
    else if arg == 3
    then HandshakeMode.industrial_certificates
    else HandshakeMode.undefined

handshake_mode_is_undefined : HandshakeMode → Bool
handshake_mode_is_undefined HandshakeMode.undefined = true
handshake_mode_is_undefined _ = false

unfoldable pub handshake_mode_spec : Spec HandshakeMode
unfolding handshake_mode_to_type handshake_mode_from_type handshake_mode_is_undefined
handshake_mode_spec = record {
  from_type = handshake_mode_from_type;
  to_type = handshake_mode_to_type;
  is_undefined = handshake_mode_is_undefined;
}

pub data HandshakeError : Type 0 where
  bad_message_format unsupported_version unsupported_handshake_ephemeral unsupported_handshake_hash
        unsupported_handshake_kdf unsupported_session_mode unsupported_nonce_mode
        unsupported_handshake_mode bad_certificate_format bad_certificate_chain
        unsupported_certificate_feature authentication_error no_prior_handshake_begin key_not_found
        unknown none undefined :
      HandshakeError

handshake_error_to_type : HandshakeError → ℕ
handshake_error_to_type HandshakeError.bad_message_format = 0
handshake_error_to_type HandshakeError.unsupported_version = 1
handshake_error_to_type HandshakeError.unsupported_handshake_ephemeral = 2
handshake_error_to_type HandshakeError.unsupported_handshake_hash = 3
handshake_error_to_type HandshakeError.unsupported_handshake_kdf = 4
handshake_error_to_type HandshakeError.unsupported_session_mode = 5
handshake_error_to_type HandshakeError.unsupported_nonce_mode = 6
handshake_error_to_type HandshakeError.unsupported_handshake_mode = 7
handshake_error_to_type HandshakeError.bad_certificate_format = 8
handshake_error_to_type HandshakeError.bad_certificate_chain = 9
handshake_error_to_type HandshakeError.unsupported_certificate_feature = 0xa
handshake_error_to_type HandshakeError.authentication_error = 0xb
handshake_error_to_type HandshakeError.no_prior_handshake_begin = 0xc
handshake_error_to_type HandshakeError.key_not_found = 0xd
handshake_error_to_type HandshakeError.unknown = 0xff
handshake_error_to_type HandshakeError.none = 0xfd
handshake_error_to_type HandshakeError.undefined = 0xfe

handshake_error_from_type : ℕ → HandshakeError
handshake_error_from_type arg =
    if arg == 0
    then HandshakeError.bad_message_format
    else if arg == 1
    then HandshakeError.unsupported_version
    else if arg == 2
    then HandshakeError.unsupported_handshake_ephemeral
    else if arg == 3
    then HandshakeError.unsupported_handshake_hash
    else if arg == 4
    then HandshakeError.unsupported_handshake_kdf
    else if arg == 5
    then HandshakeError.unsupported_session_mode
    else if arg == 6
    then HandshakeError.unsupported_nonce_mode
    else if arg == 7
    then HandshakeError.unsupported_handshake_mode
    else if arg == 8
    then HandshakeError.bad_certificate_format
    else if arg == 9
    then HandshakeError.bad_certificate_chain
    else if arg == 0xa
    then HandshakeError.unsupported_certificate_feature
    else if arg == 0xb
    then HandshakeError.authentication_error
    else if arg == 0xc
    then HandshakeError.no_prior_handshake_begin
    else if arg == 0xd
    then HandshakeError.key_not_found
    else if arg == 0xff
    then HandshakeError.unknown
    else if arg == 0xfd
    then HandshakeError.none
    else HandshakeError.undefined

handshake_error_is_undefined : HandshakeError → Bool
handshake_error_is_undefined HandshakeError.undefined = true
handshake_error_is_undefined _ = false

unfoldable pub handshake_error_spec : Spec HandshakeError
unfolding handshake_error_to_type handshake_error_from_type handshake_error_is_undefined
handshake_error_spec = record {
  from_type = handshake_error_from_type;
  to_type = handshake_error_to_type;
  is_undefined = handshake_error_is_undefined;
}

pub data PublicKeyType : Type 0 where
  ed25519 x25519 undefined : PublicKeyType

public_key_type_to_type : PublicKeyType → ℕ
public_key_type_to_type PublicKeyType.ed25519 = 0
public_key_type_to_type PublicKeyType.x25519 = 1
public_key_type_to_type PublicKeyType.undefined = 0xff

public_key_type_from_type : ℕ → PublicKeyType
public_key_type_from_type arg =
    if arg == 0
    then PublicKeyType.ed25519
    else if arg == 1
    then PublicKeyType.x25519
    else PublicKeyType.undefined

public_key_type_is_undefined : PublicKeyType → Bool
public_key_type_is_undefined PublicKeyType.undefined = true
public_key_type_is_undefined _ = false

unfoldable pub public_key_type_spec : Spec PublicKeyType
unfolding public_key_type_to_type public_key_type_from_type public_key_type_is_undefined
public_key_type_spec = record {
  from_type = public_key_type_from_type;
  to_type = public_key_type_to_type;
  is_undefined = public_key_type_is_undefined;
}

pub data ContainerEntryType : Type 0 where
  shared_secret certificate_chain x25519_public_key x25519_private_key ed25519_public_key
        ed25519_private_key undefined :
      ContainerEntryType

container_entry_type_to_type : ContainerEntryType → ℕ
container_entry_type_to_type ContainerEntryType.shared_secret = 0
container_entry_type_to_type ContainerEntryType.certificate_chain = 1
container_entry_type_to_type ContainerEntryType.x25519_public_key = 2
container_entry_type_to_type ContainerEntryType.x25519_private_key = 3
container_entry_type_to_type ContainerEntryType.ed25519_public_key = 4
container_entry_type_to_type ContainerEntryType.ed25519_private_key = 5
container_entry_type_to_type ContainerEntryType.undefined = 0xff

container_entry_type_from_type : ℕ → ContainerEntryType
container_entry_type_from_type arg =
    if arg == 0
    then ContainerEntryType.shared_secret
    else if arg == 1
    then ContainerEntryType.certificate_chain
    else if arg == 2
    then ContainerEntryType.x25519_public_key
    else if arg == 3
    then ContainerEntryType.x25519_private_key
    else if arg == 4
    then ContainerEntryType.ed25519_public_key
    else if arg == 5
    then ContainerEntryType.ed25519_private_key
    else ContainerEntryType.undefined

container_entry_type_is_undefined : ContainerEntryType → Bool
container_entry_type_is_undefined ContainerEntryType.undefined = true
container_entry_type_is_undefined _ = false

unfoldable pub container_entry_type_spec : Spec ContainerEntryType
unfolding container_entry_type_to_type container_entry_type_from_type
    container_entry_type_is_undefined
container_entry_type_spec = record {
  from_type = container_entry_type_from_type;
  to_type = container_entry_type_to_type;
  is_undefined = container_entry_type_is_undefined;
}
