-- ===== src/Wire/Structs/Certificates.antt =====
-- The structs of certificates and of container files (crypto/gen).
use ssp21_cpp.Wire.{Field, ◌&◌, struct}
use ssp21_cpp.Wire.Fields.{
  u8_field, u32_field, u64_field, enum_field, seq_byte_field, seq_struct_field,
}
use ssp21_cpp.Ser.{Ser4cpp}
use ssp21_cpp.Base.{ℕ, Bytes, List}
use ssp21_cpp.Wire.Enums.Handshake.{
  PublicKeyType, public_key_type_spec, ContainerEntryType, container_entry_type_spec,
}

pub record ExtensionEnvelope : Type 0 where
  pub identifier : ℕ
  pub extension_body : Bytes

abbrev pub extension_envelope_fields : ExtensionEnvelope → ℕ × (Bytes)
extension_envelope_fields m = (m.identifier, m.extension_body)

abbrev pub extension_envelope_make : ℕ × (Bytes) → ExtensionEnvelope
extension_envelope_make t = record { identifier = t.0; extension_body = t.1 }

pub record CertificateBody : Type 0 where
  pub valid_after : ℕ
  pub valid_before : ℕ
  pub signing_level : ℕ
  pub public_key_type : PublicKeyType
  pub public_key : Bytes
  pub extensions : List ExtensionEnvelope

abbrev pub certificate_body_fields :
    CertificateBody → ℕ × (ℕ × (ℕ × (PublicKeyType × (Bytes × (List ExtensionEnvelope)))))
certificate_body_fields m = (
  m.valid_after,
  (m.valid_before, (m.signing_level, (m.public_key_type, (m.public_key, m.extensions)))),
)

abbrev pub certificate_body_make :
    ℕ × (ℕ × (ℕ × (PublicKeyType × (Bytes × (List ExtensionEnvelope))))) → CertificateBody
certificate_body_make t = record {
  valid_after = t.0;
  valid_before = t.1.0;
  signing_level = t.1.1.0;
  public_key_type = t.1.1.1.0;
  public_key = t.1.1.1.1.0;
  extensions = t.1.1.1.1.1;
}

pub record CertificateEnvelope : Type 0 where
  pub signature : Bytes
  pub certificate_body : Bytes

abbrev pub certificate_envelope_fields : CertificateEnvelope → Bytes × (Bytes)
certificate_envelope_fields m = (m.signature, m.certificate_body)

abbrev pub certificate_envelope_make : Bytes × (Bytes) → CertificateEnvelope
certificate_envelope_make t = record { signature = t.0; certificate_body = t.1 }

pub record CertificateChain : Type 0 where
  pub certificates : List CertificateEnvelope

abbrev pub certificate_chain_fields : CertificateChain → List CertificateEnvelope
certificate_chain_fields m = m.certificates

abbrev pub certificate_chain_make : List CertificateEnvelope → CertificateChain
certificate_chain_make t = record { certificates = t }

pub record ContainerFile : Type 0 where
  pub container_entry_type : ContainerEntryType
  pub payload : Bytes

abbrev pub container_file_fields : ContainerFile → ContainerEntryType × (Bytes)
container_file_fields m = (m.container_entry_type, m.payload)

abbrev pub container_file_make : ContainerEntryType × (Bytes) → ContainerFile
container_file_make t = record { container_entry_type = t.0; payload = t.1 }

module _ ⦃ser : Ser4cpp⦄ where
  unfoldable pub extension_envelope_field : Field ExtensionEnvelope
  extension_envelope_field =
      struct extension_envelope_fields extension_envelope_make (u32_field & seq_byte_field)

  unfoldable pub certificate_body_field : Field CertificateBody
  certificate_body_field = struct certificate_body_fields certificate_body_make (
      u64_field
      & u64_field
      & u8_field
      & enum_field public_key_type_spec
      & seq_byte_field
      & seq_struct_field extension_envelope_field 5)

  unfoldable pub certificate_envelope_field : Field CertificateEnvelope
  certificate_envelope_field =
      struct certificate_envelope_fields certificate_envelope_make (seq_byte_field & seq_byte_field)

  unfoldable pub certificate_chain_field : Field CertificateChain
  certificate_chain_field =
      struct certificate_chain_fields certificate_chain_make
        (seq_struct_field certificate_envelope_field 6)

  unfoldable pub container_file_field : Field ContainerFile
  container_file_field =
      struct container_file_fields container_file_make
        (enum_field container_entry_type_spec & seq_byte_field)
