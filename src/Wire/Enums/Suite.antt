-- ===== src/Wire/Enums/Suite.antt =====
-- The enumerations of a crypto suite (crypto/gen): the types and the two
-- conversions of each `Spec`.
use ssp21_cpp.Base.{ℕ, Bool, true, false, ◌==◌, if◌then◌else◌}
use ssp21_cpp.Wire.Fields.{Spec}

pub data HandshakeEphemeral : Type 0 where
  x25519 nonce none undefined : HandshakeEphemeral

handshake_ephemeral_to_type : HandshakeEphemeral → ℕ
handshake_ephemeral_to_type HandshakeEphemeral.x25519 = 0
handshake_ephemeral_to_type HandshakeEphemeral.nonce = 1
handshake_ephemeral_to_type HandshakeEphemeral.none = 2
handshake_ephemeral_to_type HandshakeEphemeral.undefined = 0xff

handshake_ephemeral_from_type : ℕ → HandshakeEphemeral
handshake_ephemeral_from_type arg =
    if arg == 0
    then HandshakeEphemeral.x25519
    else if arg == 1
    then HandshakeEphemeral.nonce
    else if arg == 2
    then HandshakeEphemeral.none
    else HandshakeEphemeral.undefined

handshake_ephemeral_is_undefined : HandshakeEphemeral → Bool
handshake_ephemeral_is_undefined HandshakeEphemeral.undefined = true
handshake_ephemeral_is_undefined _ = false

unfoldable pub handshake_ephemeral_spec : Spec HandshakeEphemeral
unfolding handshake_ephemeral_to_type handshake_ephemeral_from_type handshake_ephemeral_is_undefined
handshake_ephemeral_spec = record {
  from_type = handshake_ephemeral_from_type;
  to_type = handshake_ephemeral_to_type;
  is_undefined = handshake_ephemeral_is_undefined;
}

pub data HandshakeHash : Type 0 where
  sha256 undefined : HandshakeHash

handshake_hash_to_type : HandshakeHash → ℕ
handshake_hash_to_type HandshakeHash.sha256 = 0
handshake_hash_to_type HandshakeHash.undefined = 0xff

handshake_hash_from_type : ℕ → HandshakeHash
handshake_hash_from_type arg = if arg == 0 then HandshakeHash.sha256 else HandshakeHash.undefined

handshake_hash_is_undefined : HandshakeHash → Bool
handshake_hash_is_undefined HandshakeHash.undefined = true
handshake_hash_is_undefined _ = false

unfoldable pub handshake_hash_spec : Spec HandshakeHash
unfolding handshake_hash_to_type handshake_hash_from_type handshake_hash_is_undefined
handshake_hash_spec = record {
  from_type = handshake_hash_from_type;
  to_type = handshake_hash_to_type;
  is_undefined = handshake_hash_is_undefined;
}

pub data HandshakeKdf : Type 0 where
  hkdf_sha256 undefined : HandshakeKdf

handshake_kdf_to_type : HandshakeKdf → ℕ
handshake_kdf_to_type HandshakeKdf.hkdf_sha256 = 0
handshake_kdf_to_type HandshakeKdf.undefined = 0xff

handshake_kdf_from_type : ℕ → HandshakeKdf
handshake_kdf_from_type arg = if arg == 0 then HandshakeKdf.hkdf_sha256 else HandshakeKdf.undefined

handshake_kdf_is_undefined : HandshakeKdf → Bool
handshake_kdf_is_undefined HandshakeKdf.undefined = true
handshake_kdf_is_undefined _ = false

unfoldable pub handshake_kdf_spec : Spec HandshakeKdf
unfolding handshake_kdf_to_type handshake_kdf_from_type handshake_kdf_is_undefined
handshake_kdf_spec = record {
  from_type = handshake_kdf_from_type;
  to_type = handshake_kdf_to_type;
  is_undefined = handshake_kdf_is_undefined;
}

pub data SessionNonceMode : Type 0 where
  strict_increment greater_than_last_rx undefined : SessionNonceMode

session_nonce_mode_to_type : SessionNonceMode → ℕ
session_nonce_mode_to_type SessionNonceMode.strict_increment = 0
session_nonce_mode_to_type SessionNonceMode.greater_than_last_rx = 1
session_nonce_mode_to_type SessionNonceMode.undefined = 0xff

session_nonce_mode_from_type : ℕ → SessionNonceMode
session_nonce_mode_from_type arg =
    if arg == 0
    then SessionNonceMode.strict_increment
    else if arg == 1
    then SessionNonceMode.greater_than_last_rx
    else SessionNonceMode.undefined

session_nonce_mode_is_undefined : SessionNonceMode → Bool
session_nonce_mode_is_undefined SessionNonceMode.undefined = true
session_nonce_mode_is_undefined _ = false

unfoldable pub session_nonce_mode_spec : Spec SessionNonceMode
unfolding session_nonce_mode_to_type session_nonce_mode_from_type session_nonce_mode_is_undefined
session_nonce_mode_spec = record {
  from_type = session_nonce_mode_from_type;
  to_type = session_nonce_mode_to_type;
  is_undefined = session_nonce_mode_is_undefined;
}

pub data SessionCryptoMode : Type 0 where
  hmac_sha256_16 aes_256_gcm undefined : SessionCryptoMode

session_crypto_mode_to_type : SessionCryptoMode → ℕ
session_crypto_mode_to_type SessionCryptoMode.hmac_sha256_16 = 0
session_crypto_mode_to_type SessionCryptoMode.aes_256_gcm = 1
session_crypto_mode_to_type SessionCryptoMode.undefined = 0xff

session_crypto_mode_from_type : ℕ → SessionCryptoMode
session_crypto_mode_from_type arg =
    if arg == 0
    then SessionCryptoMode.hmac_sha256_16
    else if arg == 1
    then SessionCryptoMode.aes_256_gcm
    else SessionCryptoMode.undefined

session_crypto_mode_is_undefined : SessionCryptoMode → Bool
session_crypto_mode_is_undefined SessionCryptoMode.undefined = true
session_crypto_mode_is_undefined _ = false

unfoldable pub session_crypto_mode_spec : Spec SessionCryptoMode
unfolding session_crypto_mode_to_type session_crypto_mode_from_type session_crypto_mode_is_undefined
session_crypto_mode_spec = record {
  from_type = session_crypto_mode_from_type;
  to_type = session_crypto_mode_to_type;
  is_undefined = session_crypto_mode_is_undefined;
}
