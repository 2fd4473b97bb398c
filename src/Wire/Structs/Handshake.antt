-- ===== src/Wire/Structs/Handshake.antt =====
-- The structs that handshake and session messages carry (crypto/gen): the chain of their fields, in
-- the order that their `read` and `write` list them.
use ssp21_cpp.Wire.{Field, ◌&◌, struct}
use ssp21_cpp.Wire.Fields.{u16_field, u32_field, enum_field}
use ssp21_cpp.Ser.{Ser4cpp}
use ssp21_cpp.Base.{ℕ}
use ssp21_cpp.Wire.Enums.Suite.{
  HandshakeEphemeral, handshake_ephemeral_spec, HandshakeHash, handshake_hash_spec, HandshakeKdf,
  handshake_kdf_spec, SessionNonceMode, session_nonce_mode_spec, SessionCryptoMode,
  session_crypto_mode_spec,
}

pub record Version : Type 0 where
  pub major_version : ℕ
  pub minor_version : ℕ

abbrev pub version_fields : Version → ℕ × (ℕ)
version_fields m = (m.major_version, m.minor_version)

abbrev pub version_make : ℕ × (ℕ) → Version
version_make t = record { major_version = t.0; minor_version = t.1 }

pub record AuthMetadata : Type 0 where
  pub nonce : ℕ
  pub valid_until_ms : ℕ

abbrev pub auth_metadata_fields : AuthMetadata → ℕ × (ℕ)
auth_metadata_fields m = (m.nonce, m.valid_until_ms)

abbrev pub auth_metadata_make : ℕ × (ℕ) → AuthMetadata
auth_metadata_make t = record { nonce = t.0; valid_until_ms = t.1 }

pub record SessionConstraints : Type 0 where
  pub max_nonce : ℕ
  pub max_session_duration : ℕ

abbrev pub session_constraints_fields : SessionConstraints → ℕ × (ℕ)
session_constraints_fields m = (m.max_nonce, m.max_session_duration)

abbrev pub session_constraints_make : ℕ × (ℕ) → SessionConstraints
session_constraints_make t = record { max_nonce = t.0; max_session_duration = t.1 }

pub record CryptoSpec : Type 0 where
  pub handshake_ephemeral : HandshakeEphemeral
  pub handshake_hash : HandshakeHash
  pub handshake_kdf : HandshakeKdf
  pub session_nonce_mode : SessionNonceMode
  pub session_crypto_mode : SessionCryptoMode

abbrev pub crypto_spec_fields :
    CryptoSpec
    → HandshakeEphemeral
      × (HandshakeHash × (HandshakeKdf × (SessionNonceMode × (SessionCryptoMode))))
crypto_spec_fields m = (
  m.handshake_ephemeral,
  (m.handshake_hash, (m.handshake_kdf, (m.session_nonce_mode, m.session_crypto_mode))),
)

abbrev pub crypto_spec_make :
    HandshakeEphemeral × (HandshakeHash × (HandshakeKdf × (SessionNonceMode × (SessionCryptoMode))))
    → CryptoSpec
crypto_spec_make t = record {
  handshake_ephemeral = t.0;
  handshake_hash = t.1.0;
  handshake_kdf = t.1.1.0;
  session_nonce_mode = t.1.1.1.0;
  session_crypto_mode = t.1.1.1.1;
}

module _ ⦃ser : Ser4cpp⦄ where
  unfoldable pub version_field : Field Version
  version_field = struct version_fields version_make (u16_field & u16_field)

  unfoldable pub auth_metadata_field : Field AuthMetadata
  auth_metadata_field = struct auth_metadata_fields auth_metadata_make (u16_field & u32_field)

  unfoldable pub session_constraints_field : Field SessionConstraints
  session_constraints_field =
      struct session_constraints_fields session_constraints_make (u16_field & u32_field)

  unfoldable pub crypto_spec_field : Field CryptoSpec
  crypto_spec_field = struct crypto_spec_fields crypto_spec_make (
      enum_field handshake_ephemeral_spec
      & enum_field handshake_hash_spec
      & enum_field handshake_kdf_spec
      & enum_field session_nonce_mode_spec
      & enum_field session_crypto_mode_spec)
