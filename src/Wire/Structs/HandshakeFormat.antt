-- ===== src/Wire/Structs/HandshakeFormat.antt =====
-- The wire format of the structs of handshake and session messages.
use ssp21_cpp.Base.{◌≡◌, refl, false, Bytes, [], ◌∷◌, ◌++◌}
use ssp21_cpp.Ser.{Ser4cpp, be16, be32}
use ssp21_cpp.Wire.Codec.{IsCodec, pair-IsCodec, struct-IsCodec}
use ssp21_cpp.Wire.Fields.Integers.{IsU, u16_field-IsCodec, u32_field-IsCodec, enum_field-IsCodec}
use ssp21_cpp.Wire.Enums.Laws.{
  handshake_ephemeral-IsSpec, handshake_hash-IsSpec, handshake_kdf-IsSpec,
  session_nonce_mode-IsSpec, session_crypto_mode-IsSpec,
}
use ssp21_cpp.Wire.Enums.Suite.{
  handshake_ephemeral_spec, handshake_hash_spec, handshake_kdf_spec, session_nonce_mode_spec,
  session_crypto_mode_spec,
}
use ssp21_cpp.Wire.Structs.Handshake.{
  Version, version_fields, version_make, version_field, AuthMetadata, auth_metadata_fields,
  auth_metadata_make, auth_metadata_field, SessionConstraints, session_constraints_fields,
  session_constraints_make, session_constraints_field, CryptoSpec, crypto_spec_fields,
  crypto_spec_make, crypto_spec_field,
}

abbrev pub IsVersion : Version → Type 0
IsVersion m = IsU 16 m.major_version × (IsU 16 m.minor_version)

abbrev pub version_bytes : Version → Bytes
version_bytes m = be16 m.major_version ++ (be16 m.minor_version)

abbrev pub IsAuthMetadata : AuthMetadata → Type 0
IsAuthMetadata m = IsU 16 m.nonce × (IsU 32 m.valid_until_ms)

abbrev pub auth_metadata_bytes : AuthMetadata → Bytes
auth_metadata_bytes m = be16 m.nonce ++ (be32 m.valid_until_ms)

abbrev pub IsSessionConstraints : SessionConstraints → Type 0
IsSessionConstraints m = IsU 16 m.max_nonce × (IsU 32 m.max_session_duration)

abbrev pub session_constraints_bytes : SessionConstraints → Bytes
session_constraints_bytes m = be16 m.max_nonce ++ (be32 m.max_session_duration)

abbrev pub IsCryptoSpec : CryptoSpec → Type 0
IsCryptoSpec m =
    (handshake_ephemeral_spec.is_undefined m.handshake_ephemeral ≡ false)
    × ((handshake_hash_spec.is_undefined m.handshake_hash ≡ false)
        × ((handshake_kdf_spec.is_undefined m.handshake_kdf ≡ false)
            × ((session_nonce_mode_spec.is_undefined m.session_nonce_mode ≡ false)
                × ((session_crypto_mode_spec.is_undefined m.session_crypto_mode ≡ false)))))

abbrev pub crypto_spec_bytes : CryptoSpec → Bytes
crypto_spec_bytes m =
    (handshake_ephemeral_spec.to_type m.handshake_ephemeral ∷ [])
    ++ ((handshake_hash_spec.to_type m.handshake_hash ∷ [])
        ++ ((handshake_kdf_spec.to_type m.handshake_kdf ∷ [])
            ++ ((session_nonce_mode_spec.to_type m.session_nonce_mode ∷ [])
                ++ ((session_crypto_mode_spec.to_type m.session_crypto_mode ∷ [])))))

module _ ⦃ser : Ser4cpp⦄ where
  pub version_field-IsCodec : IsCodec version_field IsVersion version_bytes
  unfolding version_field
  version_field-IsCodec =
      struct-IsCodec (pair-IsCodec (u16_field-IsCodec) (u16_field-IsCodec)) version_fields
        version_make (λ m. refl) (λ t. refl)

  pub auth_metadata_field-IsCodec : IsCodec auth_metadata_field IsAuthMetadata auth_metadata_bytes
  unfolding auth_metadata_field
  auth_metadata_field-IsCodec =
      struct-IsCodec (pair-IsCodec (u16_field-IsCodec) (u32_field-IsCodec)) auth_metadata_fields
        auth_metadata_make (λ m. refl) (λ t. refl)

  pub session_constraints_field-IsCodec :
      IsCodec session_constraints_field IsSessionConstraints session_constraints_bytes
  unfolding session_constraints_field
  session_constraints_field-IsCodec =
      struct-IsCodec (pair-IsCodec (u16_field-IsCodec) (u32_field-IsCodec))
        session_constraints_fields session_constraints_make (λ m. refl) (λ t. refl)

  pub crypto_spec_field-IsCodec : IsCodec crypto_spec_field IsCryptoSpec crypto_spec_bytes
  unfolding crypto_spec_field
  crypto_spec_field-IsCodec =
      struct-IsCodec
        (pair-IsCodec (enum_field-IsCodec handshake_ephemeral-IsSpec) (
          pair-IsCodec (enum_field-IsCodec handshake_hash-IsSpec) (
            pair-IsCodec (enum_field-IsCodec handshake_kdf-IsSpec) (
              pair-IsCodec (enum_field-IsCodec session_nonce_mode-IsSpec)
                (enum_field-IsCodec session_crypto_mode-IsSpec)))))
        crypto_spec_fields crypto_spec_make (λ m. refl) (λ t. refl)
