-- ===== src/Wire/Structs/CertificatesFormat.antt =====
-- The wire format of certificates and container files.
use ssp21_cpp.Base.{◌≡◌, refl, false, Bytes, [], ◌∷◌, ◌++◌, arith}
use ssp21_cpp.Ser.{Ser4cpp, be8, be32, be64}
use ssp21_cpp.Wire.Codec.{IsCodec, pair-IsCodec, struct-IsCodec}
use ssp21_cpp.Wire.Fields.Integers.{
  IsU, u8_field-IsCodec, u32_field-IsCodec, u64_field-IsCodec, enum_field-IsCodec,
}
use ssp21_cpp.Wire.Fields.ByteSeq.{IsSeq, seq_bytes, seq_byte_field-IsCodec}
use ssp21_cpp.Wire.Fields.Items.{IsItems, struct_bytes, seq_struct_field-IsCodec}
use ssp21_cpp.Wire.Enums.Laws.{public_key_type-IsSpec, container_entry_type-IsSpec}
use ssp21_cpp.Wire.Enums.Handshake.{public_key_type_spec, container_entry_type_spec}
use ssp21_cpp.Wire.Structs.Certificates.{
  ExtensionEnvelope, extension_envelope_fields, extension_envelope_make, extension_envelope_field,
  CertificateBody, certificate_body_fields, certificate_body_make, certificate_body_field,
  CertificateEnvelope, certificate_envelope_fields, certificate_envelope_make,
  certificate_envelope_field, CertificateChain, certificate_chain_fields, certificate_chain_make,
  certificate_chain_field, ContainerFile, container_file_fields, container_file_make,
  container_file_field,
}

abbrev pub IsExtensionEnvelope : ExtensionEnvelope → Type 0
IsExtensionEnvelope m = IsU 32 m.identifier × (IsSeq m.extension_body)

abbrev pub extension_envelope_bytes : ExtensionEnvelope → Bytes
extension_envelope_bytes m = be32 m.identifier ++ (seq_bytes m.extension_body)

abbrev pub IsCertificateBody : CertificateBody → Type 0
IsCertificateBody m =
    IsU 64 m.valid_after
    × (IsU 64 m.valid_before
        × (IsU 8 m.signing_level
            × ((public_key_type_spec.is_undefined m.public_key_type ≡ false)
                × (IsSeq m.public_key × (IsItems IsExtensionEnvelope 5 m.extensions)))))

abbrev pub certificate_body_bytes : CertificateBody → Bytes
certificate_body_bytes m =
    be64 m.valid_after
    ++ (be64 m.valid_before
        ++ (be8 m.signing_level
            ++ ((public_key_type_spec.to_type m.public_key_type ∷ [])
                ++ (seq_bytes m.public_key
                    ++ (struct_bytes extension_envelope_bytes m.extensions)))))

abbrev pub IsCertificateEnvelope : CertificateEnvelope → Type 0
IsCertificateEnvelope m = IsSeq m.signature × (IsSeq m.certificate_body)

abbrev pub certificate_envelope_bytes : CertificateEnvelope → Bytes
certificate_envelope_bytes m = seq_bytes m.signature ++ (seq_bytes m.certificate_body)

abbrev pub IsCertificateChain : CertificateChain → Type 0
IsCertificateChain m = IsItems IsCertificateEnvelope 6 m.certificates

abbrev pub certificate_chain_bytes : CertificateChain → Bytes
certificate_chain_bytes m = struct_bytes certificate_envelope_bytes m.certificates

abbrev pub IsContainerFile : ContainerFile → Type 0
IsContainerFile m =
    (container_entry_type_spec.is_undefined m.container_entry_type ≡ false) × (IsSeq m.payload)

abbrev pub container_file_bytes : ContainerFile → Bytes
container_file_bytes m =
    (container_entry_type_spec.to_type m.container_entry_type ∷ []) ++ (seq_bytes m.payload)

module _ ⦃ser : Ser4cpp⦄ where
  pub extension_envelope_field-IsCodec :
      IsCodec extension_envelope_field IsExtensionEnvelope extension_envelope_bytes
  unfolding extension_envelope_field
  extension_envelope_field-IsCodec =
      struct-IsCodec (pair-IsCodec (u32_field-IsCodec) (seq_byte_field-IsCodec))
        extension_envelope_fields extension_envelope_make (λ m. refl) (λ t. refl)

  pub certificate_body_field-IsCodec :
      IsCodec certificate_body_field IsCertificateBody certificate_body_bytes
  unfolding certificate_body_field
  certificate_body_field-IsCodec =
      struct-IsCodec
        (pair-IsCodec (u64_field-IsCodec) (
          pair-IsCodec (u64_field-IsCodec) (
            pair-IsCodec (u8_field-IsCodec) (
              pair-IsCodec (enum_field-IsCodec public_key_type-IsSpec) (
                pair-IsCodec (seq_byte_field-IsCodec)
                  (seq_struct_field-IsCodec extension_envelope_field-IsCodec 5 (omega arith)))))))
        certificate_body_fields certificate_body_make (λ m. refl) (λ t. refl)

  pub certificate_envelope_field-IsCodec :
      IsCodec certificate_envelope_field IsCertificateEnvelope certificate_envelope_bytes
  unfolding certificate_envelope_field
  certificate_envelope_field-IsCodec =
      struct-IsCodec (pair-IsCodec (seq_byte_field-IsCodec) (seq_byte_field-IsCodec))
        certificate_envelope_fields certificate_envelope_make (λ m. refl) (λ t. refl)

  pub certificate_chain_field-IsCodec :
      IsCodec certificate_chain_field IsCertificateChain certificate_chain_bytes
  unfolding certificate_chain_field
  certificate_chain_field-IsCodec =
      struct-IsCodec (seq_struct_field-IsCodec certificate_envelope_field-IsCodec 6 (omega arith))
        certificate_chain_fields certificate_chain_make (λ m. refl) (λ t. refl)

  pub container_file_field-IsCodec :
      IsCodec container_file_field IsContainerFile container_file_bytes
  unfolding container_file_field
  container_file_field-IsCodec =
      struct-IsCodec
        (pair-IsCodec (enum_field-IsCodec container_entry_type-IsSpec) (seq_byte_field-IsCodec))
        container_file_fields container_file_make (λ m. refl) (λ t. refl)
