-- ===== src/Certificates/Tests.antt =====
-- A chain of two certificates, whose signatures are a toy, and the files that hold it.
use ssp21_cpp.Base.{
  ℕ, zero, suc, ◌+◌, ◌-◌, ◌≤◌, ◌≡◌, All, IsByte, arith, ◌≢◌, ◌↔◌, refl, true, Bytes, List, [], ◌∷◌,
  ◌==◌, length,
}
use ssp21_cpp.Ser.BigEndian.{big_endian}
use ssp21_cpp.Wire.{ok}
use ssp21_cpp.Wire.Messages.{read_all}
use ssp21_cpp.Wire.Enums.Handshake.{HandshakeMode, PublicKeyType, ContainerEntryType}
use ssp21_cpp.Wire.Structs.Certificates.{
  CertificateBody, CertificateEnvelope, CertificateChain, ContainerFile, container_file_field,
}
use ssp21_cpp.Wire.Structs.CertificatesFormat.{
  IsCertificateBody, certificate_body_bytes, IsCertificateChain, certificate_chain_bytes,
  IsContainerFile, container_file_bytes, certificate_body_field-IsCodec,
  certificate_chain_field-IsCodec, container_file_field-IsCodec,
}
use ssp21_cpp.Wire.Enums.Handshake.{public_key_type_spec, container_entry_type_spec}
use ssp21_cpp.Wire.VLength.{num_values_bytes}
use ssp21_cpp.Wire.VLength.Format.{encode}
use ssp21_cpp.Wire.Messages.Framing.{read_all-encode}
use ssp21_cpp.Certificates.{Signatures, trusted, verify}
use ssp21_cpp.Certificates.Trust.{IsPath, verify_iff}
use ssp21_cpp.Certificates.Handlers.{
  loaded, CertificateHandler, certificates, industrial_validate, read_anchor_cert,
  verify_presented_chain, read_chain,
}
use ssp21_cpp.Certificates.Handlers.Peers.{
  IsVouched, certificates-validate_iff, certificates_mutual,
}

abbrev zeros : ℕ → Bytes
zeros zero = []
zeros (suc n) = 0 ∷ zeros n

-- A signature is the signer's key and a zero in front of 62 more zeros.
abbrev first : Bytes → ℕ
first [] = 0
first (b ∷ bytes) = b

instance abbrev toy : Signatures
toy = record {
  supports_ed25519 = true;
  verify_ed25519 = λ message signature public_key. first signature == first public_key;
}

abbrev signature_of : ℕ → Bytes
signature_of key = key ∷ zeros 63

abbrev body : ℕ → PublicKeyType → ℕ → CertificateBody
body level type key = record {
  valid_after = 5 - level;
  valid_before = 90 + level;
  signing_level = level;
  public_key_type = type;
  public_key = key ∷ zeros 31;
  extensions = [];
}

abbrev anchor : CertificateBody
anchor = body 2 PublicKeyType.ed25519 8

abbrev endpoint : CertificateBody
endpoint = body 0 PublicKeyType.x25519 7

zeros_bytes : (n : ℕ) → All IsByte (zeros n)
zeros_bytes zero = tt
zeros_bytes (suc n) = (omega arith, zeros_bytes n)

abbrev envelope : CertificateEnvelope
envelope = record { signature = signature_of 8; certificate_body = certificate_body_bytes endpoint }

abbrev chain : CertificateChain
chain = record { certificates = envelope ∷ [] }

abbrev anchor_chain : CertificateChain
anchor_chain = record {
  certificates = record { signature = []; certificate_body = certificate_body_bytes anchor } ∷ [];
}

abbrev file_of : CertificateChain → ContainerFile
file_of c = record {
  container_entry_type = ContainerEntryType.certificate_chain;
  payload = certificate_chain_bytes c;
}

anchor_fits : IsCertificateBody anchor
unfolding public_key_type_spec
anchor_fits = (
  omega arith,
  (
    omega arith,
    (omega arith, (refl, ((omega arith, (omega arith, zeros_bytes 31)), (omega arith, tt)))),
  ),
)

endpoint_fits : IsCertificateBody endpoint
unfolding public_key_type_spec
endpoint_fits = (
  omega arith,
  (
    omega arith,
    (omega arith, (refl, ((omega arith, (omega arith, zeros_bytes 31)), (omega arith, tt)))),
  ),
)

chain_fits : IsCertificateChain chain
unfolding encode num_values_bytes
chain_fits = (
  omega arith,
  (
    (
      (omega arith, (omega arith, zeros_bytes 63)),
      (omega arith, certificate_body_field-IsCodec.bytes endpoint endpoint_fits),
    ),
    tt,
  ),
)

anchor_chain_fits : IsCertificateChain anchor_chain
unfolding encode num_values_bytes
anchor_chain_fits = (
  omega arith,
  (((omega arith, tt), (omega arith, certificate_body_field-IsCodec.bytes anchor anchor_fits)), tt),
)

file_fits :
    (c : CertificateChain)
    → IsCertificateChain c
    → length (certificate_chain_bytes c) ≤ 300
    → IsContainerFile (file_of c)
unfolding container_entry_type_spec
file_fits c h room = (refl, (omega (arith, room), certificate_chain_field-IsCodec.bytes c h))

abbrev file : Bytes
file = container_file_bytes (file_of chain)

abbrev anchor_file : Bytes
anchor_file = container_file_bytes (file_of anchor_chain)

file_read : read_all container_file_field file ≡ ok (file_of chain)
unfolding encode num_values_bytes
file_read =
    read_all-encode container_file_field-IsCodec (file_of chain)
      (file_fits chain chain_fits (omega arith))

anchor_file_read : read_all container_file_field anchor_file ≡ ok (file_of anchor_chain)
unfolding encode num_values_bytes
anchor_file_read =
    read_all-encode container_file_field-IsCodec (file_of anchor_chain)
      (file_fits anchor_chain anchor_chain_fits (omega arith))

abbrev handler : CertificateHandler
handler = record {
  mode = HandshakeMode.industrial_certificates;
  certificate_data = certificate_chain_bytes chain;
  validate = industrial_validate anchor;
}

chain_verified : verify anchor (envelope ∷ []) ≡ trusted endpoint
chain_verified = (verify_iff anchor endpoint (envelope ∷ [])).1 (
  λ empty. cc,
  (
    endpoint,
    record {
      key_type = refl;
      supported = refl;
      signature_length = refl;
      signed = refl;
      body = read_all-encode certificate_body_field-IsCodec endpoint endpoint_fits;
      after = omega arith;
      before = omega arith;
      level = omega arith;
    },
    refl,
  ),
  refl,
  refl,
)

built : certificates anchor_file file ≡ loaded handler
unfolding certificates verify_presented_chain read_anchor_cert read_chain
built = rw (
  anchor_file_read,
  read_all-encode certificate_chain_field-IsCodec anchor_chain anchor_chain_fits,
  read_all-encode certificate_body_field-IsCodec anchor anchor_fits,
  file_read,
  read_all-encode certificate_chain_field-IsCodec chain chain_fits,
  chain_verified,
)

verify_iff_example : (verify anchor (envelope ∷ []) ≡ trusted endpoint) ↔ (
    (◌≢◌ {A = List CertificateEnvelope} (envelope ∷ []) [])
    × IsPath anchor (envelope ∷ []) endpoint
    × (endpoint.signing_level ≡ 0)
    × (endpoint.public_key_type ≡ PublicKeyType.x25519))
verify_iff_example = verify_iff anchor endpoint (envelope ∷ [])

certificates-validate_iff_example :
    (a : CertificateBody) × (read_anchor_cert anchor_file ≡ loaded a)
    × ((handler.validate HandshakeMode.industrial_certificates (certificate_chain_bytes chain)
          ≡ trusted endpoint.public_key)
        ↔ ((HandshakeMode.industrial_certificates ≡ HandshakeMode.industrial_certificates)
            × IsVouched a (certificate_chain_bytes chain) endpoint.public_key))
certificates-validate_iff_example =
    certificates-validate_iff anchor_file file handler HandshakeMode.industrial_certificates
      (certificate_chain_bytes chain) endpoint.public_key built

certificates_mutual_example :
    (key : Bytes) × (handler.validate handler.mode handler.certificate_data ≡ trusted key)
certificates_mutual_example = certificates_mutual anchor_file file file handler handler built built
