-- ===== src/Certificates.antt =====
-- cpp/libs/ssp21/src/crypto/Chain.cpp: the verification of a chain of certificates. The backend's
-- signatures are parameters.
pub mod Trust
pub mod Handlers
mod Tests
use ssp21_cpp.Base.{
  ℕ, Bool, true, false, not, Bytes, List, [], ◌∷◌, length, ltb, ◌==◌, Option, none, some,
  if◌then◌else◌,
}
use ssp21_cpp.Ser.{Ser4cpp}
use ssp21_cpp.Wire.{Parsed, ok, err}
use ssp21_cpp.Wire.Messages.{read_all}
use ssp21_cpp.Wire.Enums.Handshake.{HandshakeError, PublicKeyType}
use ssp21_cpp.Wire.Structs.Certificates.{
  CertificateBody, CertificateEnvelope, certificate_body_field,
}

-- What the backend has for Ed25519: `verify_ed25519(message, signature, public_key)`.
pub record Signatures : Type 0 where
  pub supports_ed25519 : Bool
  pub verify_ed25519 : Bytes → Bytes → Bytes → Bool

abbrev pub ed25519_signature_length : ℕ
ed25519_signature_length = 64

pub record DsaInfo : Type 0 where
  pub verify : Bytes → Bytes → Bytes → Bool
  pub signature_length : ℕ

-- A `HandshakeError`, with what the function puts out where it is `HandshakeError::none`.
pub data Verified {ℓ} (A : Type ℓ) : Type ℓ where
  trusted : A → Verified A
  rejected : HandshakeError → Verified A

-- `if (any(err)) return err;`
abbrev pub if_trusted {ℓ κ} : {A : Type ℓ} {B : Type κ} → Verified A → (A → Verified B) → Verified B
if_trusted (trusted a) f = f a
if_trusted (rejected e) f = rejected e

abbrev pub is_dh_key : PublicKeyType → Bool
is_dh_key PublicKeyType.x25519 = true
is_dh_key _ = false

module _ ⦃signatures : Signatures⦄ where
  -- `none` is the `DSAInfo` without a function.
  pub try_get_dsa_info : PublicKeyType → Option DsaInfo
  try_get_dsa_info PublicKeyType.ed25519 =
      if signatures.supports_ed25519
      then some (record {
        verify = signatures.verify_ed25519;
        signature_length = ed25519_signature_length;
      })
      else none
  try_get_dsa_info _ = none

-- The checks of a child's body that has been read.
pub check_child : CertificateBody → Parsed CertificateBody → Verified CertificateBody
check_child parent (err e) = rejected HandshakeError.bad_certificate_format
check_child parent (ok child) =
    if ltb child.valid_after parent.valid_after
    then rejected HandshakeError.bad_certificate_chain
    else if ltb parent.valid_before child.valid_before
    then rejected HandshakeError.bad_certificate_chain
    else if not (ltb child.signing_level parent.signing_level)
    then rejected HandshakeError.bad_certificate_chain
    else trusted child

-- The checks of the last certificate of a chain.
pub check_terminal : CertificateBody → Verified CertificateBody
check_terminal parent =
    if not (parent.signing_level == 0)
    then rejected HandshakeError.bad_certificate_chain
    else if not (is_dh_key parent.public_key_type)
    then rejected HandshakeError.bad_certificate_chain
    else trusted parent

module _ ⦃ser : Ser4cpp⦄ where
  pub check_signed :
      Option DsaInfo → CertificateBody → CertificateEnvelope → Verified CertificateBody
  unfolding check_child
  check_signed none parent child = rejected HandshakeError.bad_certificate_chain
  check_signed (some dsa) parent child =
      if not (dsa.signature_length == length child.signature)
      then rejected HandshakeError.bad_certificate_chain
      else if not (dsa.verify child.certificate_body child.signature parent.public_key)
      then rejected HandshakeError.authentication_error
      else check_child parent (read_all certificate_body_field child.certificate_body)

module _ ⦃ser : Ser4cpp⦄ ⦃signatures : Signatures⦄ where
  pub verify_pair : CertificateBody → CertificateEnvelope → Verified CertificateBody
  unfolding check_signed try_get_dsa_info
  verify_pair parent child = check_signed (try_get_dsa_info parent.public_key_type) parent child

  -- The loop of `verify`.
  pub verify_from : CertificateBody → List CertificateEnvelope → Verified CertificateBody
  unfolding verify_pair check_terminal
  verify_from parent [] = check_terminal parent
  verify_from parent (child ∷ children) =
      if_trusted (verify_pair parent child) (λ output. verify_from output children)

  pub verify : CertificateBody → List CertificateEnvelope → Verified CertificateBody
  unfolding verify_from
  verify anchor [] = rejected HandshakeError.bad_certificate_chain
  verify anchor (child ∷ children) = verify_from anchor (child ∷ children)
