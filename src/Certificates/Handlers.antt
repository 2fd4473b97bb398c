-- ===== src/Certificates/Handlers.antt =====
-- The certificate handlers of cpp/libs/ssp21/src/crypto: IndustrialCertificateHandler.cpp, whose
-- constructor reads two files, and PresharedKeyCertificateHandler.h.
pub mod Peers
use ssp21_cpp.Base.{
  ◌≡◌, refl, ap, sym, ◌∙◌, ℕ, Bool, true, false, not, Bytes, List, [], ◌∷◌, length, ◌==◌,
  if◌then◌else◌,
}
use ssp21_cpp.Ser.{Ser4cpp}
use ssp21_cpp.Wire.{Parsed, ok, err, ParseError}
use ssp21_cpp.Wire.Messages.{read_all}
use ssp21_cpp.Wire.Enums.Handshake.{
  HandshakeError, HandshakeMode, ContainerEntryType, handshake_mode_spec, container_entry_type_spec,
}
use ssp21_cpp.Wire.Structs.Certificates.{
  CertificateBody, CertificateEnvelope, CertificateChain, ContainerFile, certificate_body_field,
  certificate_chain_field, container_file_field,
}
use ssp21_cpp.Certificates.{Signatures, Verified, trusted, rejected, if_trusted, verify}

-- The exceptions that the constructor throws.
pub data Exception : Type 0 where
  unable_to_read_container_file : ParseError → Exception
  unexpected_file_type : ContainerEntryType → Exception
  unable_to_read_certificate_chain : ParseError → Exception
  unexpected_number_of_certificates : ℕ → Exception
  unable_to_read_certificate_body : ParseError → Exception
  error_verifying_certificate_chain : HandshakeError → Exception

pub data Loaded {ℓ} (A : Type ℓ) : Type ℓ where
  loaded : A → Loaded A
  thrown : Exception → Loaded A

abbrev pub if_loaded {ℓ κ} : {A : Type ℓ} {B : Type κ} → Loaded A → (A → Loaded B) → Loaded B
if_loaded (loaded a) f = f a
if_loaded (thrown e) f = thrown e

-- `if (any(err)) throw Exception(...)`
abbrev pub or_throw {ℓ} : {A : Type ℓ} → (ParseError → Exception) → Parsed A → Loaded A
or_throw e (ok a) = loaded a
or_throw e (err p) = thrown (e p)

abbrev pub no_error {ℓ} : {A : Type ℓ} → Verified A → Loaded A
no_error (trusted a) = loaded a
no_error (rejected e) = thrown (error_verifying_certificate_chain e)

-- An `ICertificateHandler`.
pub record CertificateHandler : Type 0 where
  pub mode : HandshakeMode
  pub certificate_data : Bytes
  pub validate : HandshakeMode → Bytes → Verified Bytes

-- `mode == HandshakeMode::public_keys`, and `mode == HandshakeMode::industrial_certificates`
abbrev is_public_keys : HandshakeMode → Bool
is_public_keys HandshakeMode.public_keys = true
is_public_keys _ = false

abbrev pub is_industrial_certificates : HandshakeMode → Bool
is_industrial_certificates HandshakeMode.industrial_certificates = true
is_industrial_certificates _ = false

abbrev is_certificate_chain : ContainerEntryType → Bool
is_certificate_chain ContainerEntryType.certificate_chain = true
is_certificate_chain _ = false

abbrev only_empty : Bytes → Bytes → Verified Bytes
only_empty key [] = trusted key
only_empty key (b ∷ certificate_data) = rejected HandshakeError.bad_message_format

unfoldable pub preshared_key_validate : Bytes → HandshakeMode → Bytes → Verified Bytes
preshared_key_validate key mode certificate_data =
    if not (is_public_keys mode)
    then rejected HandshakeError.unsupported_handshake_mode
    else only_empty key certificate_data

unfoldable pub preshared_key : Bytes → CertificateHandler
preshared_key remote_static_public_key = record {
  mode = HandshakeMode.public_keys;
  certificate_data = [];
  validate = preshared_key_validate remote_static_public_key;
}

module _ ⦃ser : Ser4cpp⦄ where
  abbrev chain_of : ContainerFile → Loaded (Bytes × CertificateChain)
  chain_of file =
      if not (is_certificate_chain file.container_entry_type)
      then thrown (unexpected_file_type file.container_entry_type)
      else if_loaded
          (or_throw unable_to_read_certificate_chain
            (read_all certificate_chain_field file.payload))
          (λ chain. loaded (file.payload, chain))

  -- The chain in a container file, with the file's payload.
  unfoldable pub read_chain : Bytes → Loaded (Bytes × CertificateChain)
  read_chain file_data =
      if_loaded (or_throw unable_to_read_container_file (read_all container_file_field file_data))
        chain_of

  abbrev only_certificate : List CertificateEnvelope → Loaded CertificateBody
  only_certificate (envelope ∷ []) =
      or_throw unable_to_read_certificate_body
        (read_all certificate_body_field envelope.certificate_body)
  only_certificate certificates = thrown (unexpected_number_of_certificates (length certificates))

  unfoldable pub read_anchor_cert : Bytes → Loaded CertificateBody
  unfolding read_chain
  read_anchor_cert file_data =
      if_loaded (read_chain file_data) (λ file. only_certificate file.1.certificates)

module _ ⦃ser : Ser4cpp⦄ ⦃signatures : Signatures⦄ where
  unfoldable pub verify_presented_chain : CertificateBody → Bytes → Loaded Bytes
  unfolding read_chain
  verify_presented_chain anchor file_data =
      if_loaded (read_chain file_data) (λ file.
        if_loaded (no_error (verify anchor file.1.certificates)) (λ endpoint. loaded file.0))

  pub validate_chain : CertificateBody → Parsed CertificateChain → Verified Bytes
  validate_chain anchor (err e) = rejected HandshakeError.bad_certificate_format
  validate_chain anchor (ok chain) =
      if_trusted (verify anchor chain.certificates)
        (λ endpoint_cert. trusted endpoint_cert.public_key)

  unfoldable pub industrial_validate : CertificateBody → HandshakeMode → Bytes → Verified Bytes
  unfolding validate_chain
  industrial_validate anchor mode certificate_data =
      if not (is_industrial_certificates mode)
      then rejected HandshakeError.unsupported_handshake_mode
      else validate_chain anchor (read_all certificate_chain_field certificate_data)

  -- The constructor of `IndustrialCertificateHandler`: the anchor, then the chain that it presents.
  unfoldable pub certificates : Bytes → Bytes → Loaded CertificateHandler
  unfolding verify_presented_chain
  certificates anchor_file_data presented_file_data =
      if_loaded (read_anchor_cert anchor_file_data) (λ anchor.
        if_loaded (verify_presented_chain anchor presented_file_data) (λ presented. loaded (record {
          mode = HandshakeMode.industrial_certificates;
          certificate_data = presented;
          validate = industrial_validate anchor;
        })))
