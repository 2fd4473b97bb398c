-- ===== src/Certificates/Handlers/Peers.antt =====
-- What a certificate handler accepts of the other party.
use ssp21_cpp.Base.{
  ◌≡◌, ◌≢◌, ◌↔◌, refl, ap, sym, ◌∙◌, Bool, true, false, not, Bytes, [], if◌then◌else◌,
}
use mathlib.Core.Path.{subst}
use ssp21_cpp.Ser.{Ser4cpp}
use ssp21_cpp.Wire.{Parsed, ok, err, ParseError}
use ssp21_cpp.Wire.Messages.{read_all}
use ssp21_cpp.Wire.Enums.Handshake.{HandshakeMode, PublicKeyType}
use ssp21_cpp.Wire.Structs.Certificates.{
  CertificateBody, CertificateChain, ContainerFile, certificate_chain_field,
}
use ssp21_cpp.Certificates.{Signatures, Verified, trusted, rejected}
use ssp21_cpp.Certificates.Trust.{IsPath, verify_iff, if_trusted-trusted, guard, not-false}
use ssp21_cpp.Certificates.Handlers.{
  Loaded, loaded, thrown, Exception, if_loaded, or_throw, no_error, CertificateHandler,
  is_industrial_certificates, read_chain, read_anchor_cert, verify_presented_chain, validate_chain,
  industrial_validate, certificates, is_certificate_chain, chain_of,
  unable_to_read_certificate_chain,
}

if_loaded-loaded {ℓ κ} :
    {A : Type ℓ} {B : Type κ} (v : Loaded A) (f : A → Loaded B) (r : B)
    → if_loaded v f ≡ loaded r
    → (a : A) × (v ≡ loaded a) × (f a ≡ loaded r)
if_loaded-loaded (loaded a) f r h = (a, refl, h)
if_loaded-loaded (thrown e) f r h = cc

or_throw-loaded {ℓ} :
    {A : Type ℓ} (e : ParseError → Exception) (p : Parsed A) (a : A)
    → or_throw e p ≡ loaded a
    → p ≡ ok a
or_throw-loaded e (ok b) a h = cc
or_throw-loaded e (err b) a h = cc

no_error-loaded {ℓ} : {A : Type ℓ} (v : Verified A) (a : A) → no_error v ≡ loaded a → v ≡ trusted a
no_error-loaded (trusted b) a h = cc
no_error-loaded (rejected b) a h = cc

guard_thrown :
    {R : Type 0} (b : Bool) (e : Exception) (rest : Loaded R) (r : R)
    → (if b then thrown e else rest) ≡ loaded r
    → rest ≡ loaded r
guard_thrown true e rest r h = cc
guard_thrown false e rest r h = h

is_industrial_certificates_lem :
    (mode : HandshakeMode)
    → is_industrial_certificates mode ≡ true
    → mode ≡ HandshakeMode.industrial_certificates
is_industrial_certificates_lem HandshakeMode.industrial_certificates h = refl
is_industrial_certificates_lem HandshakeMode.shared_secret h = cc
is_industrial_certificates_lem HandshakeMode.public_keys h = cc
is_industrial_certificates_lem HandshakeMode.quantum_key_distribution h = cc
is_industrial_certificates_lem HandshakeMode.undefined h = cc

module _ ⦃ser : Ser4cpp⦄ where
  chain_of-payload :
      (file : ContainerFile) (payload : Bytes) (chain : CertificateChain)
      → chain_of file ≡ loaded (payload, chain)
      → read_all certificate_chain_field payload ≡ ok chain
  chain_of-payload file payload chain h =
      parsed (read_all certificate_chain_field file.payload) refl
        (guard_thrown (not (is_certificate_chain file.container_entry_type)) _ _ (payload, chain) h)
    where
      parsed :
          (p : Parsed CertificateChain)
          → read_all certificate_chain_field file.payload ≡ p
          → if_loaded {A = CertificateChain} {B = Bytes × CertificateChain}
              (or_throw unable_to_read_certificate_chain p)
              (λ c. loaded (file.payload, c))
            ≡ loaded (payload, chain)
          → read_all certificate_chain_field payload ≡ ok chain
      parsed (err e) same h = cc
      parsed (ok c) same h =
          let paths : file.payload ≡ payload = cc in
          let chains : c ≡ chain = cc in
          ap (read_all certificate_chain_field) (sym paths) ∙ same ∙ ap ok chains

  read_chain-payload :
      (file_data payload : Bytes) (chain : CertificateChain)
      → read_chain file_data ≡ loaded (payload, chain)
      → read_all certificate_chain_field payload ≡ ok chain
  unfolding read_chain
  read_chain-payload file_data payload chain h =
      let (file, file_read, h1) = if_loaded-loaded _ chain_of (payload, chain) h in
      chain_of-payload file payload chain h1

module _ ⦃ser : Ser4cpp⦄ ⦃signatures : Signatures⦄ where
  -- The data parses as a chain that leads from the anchor to a certificate with that key.
  pub IsVouched : CertificateBody → Bytes → Bytes → Type 0
  IsVouched anchor certificate_data key =
      (chain : CertificateChain) × (last : CertificateBody) × (read_all certificate_chain_field
          certificate_data
        ≡ ok chain)
      × (chain.certificates ≢ [])
      × IsPath anchor chain.certificates last
      × (last.signing_level ≡ 0)
      × (last.public_key_type ≡ PublicKeyType.x25519)
      × (last.public_key ≡ key)

  validate_chain_iff :
      (anchor : CertificateBody) (certificate_data key : Bytes)
      → (validate_chain anchor (read_all certificate_chain_field certificate_data) ≡ trusted key)
        ↔ IsVouched anchor certificate_data key
  unfolding validate_chain IsVouched
  validate_chain_iff anchor certificate_data key =
      (forward (read_all certificate_chain_field certificate_data) refl, backward)
    where
      forward :
          (p : Parsed CertificateChain)
          → read_all certificate_chain_field certificate_data ≡ p
          → validate_chain anchor p ≡ trusted key
          → IsVouched anchor certificate_data key
      forward (err e) same h = cc
      forward (ok chain) same h =
          let (last, ran, k) = if_trusted-trusted _ _ _ h in
          let (present, path, level, dh) = (verify_iff anchor last chain.certificates).0 ran in
          (chain, last, same, present, path, level, dh, cc)

      backward :
          IsVouched anchor certificate_data key
          → validate_chain anchor (read_all certificate_chain_field certificate_data) ≡ trusted key
      backward (chain, last, same, present, path, level, dh, k) =
          rw
            (
              same,
              validate_chain,
              (verify_iff anchor last chain.certificates).1 (present, path, level, dh),
            )
            (ap trusted k)

  certificates-loaded :
      (anchor_file_data presented_file_data : Bytes) (h : CertificateHandler)
      → certificates anchor_file_data presented_file_data ≡ loaded h
      → (anchor : CertificateBody) × (presented : Bytes) × (read_anchor_cert anchor_file_data
          ≡ loaded anchor)
        × (verify_presented_chain anchor presented_file_data ≡ loaded presented)
        × (h ≡ record {
          mode = HandshakeMode.industrial_certificates;
          certificate_data = presented;
          validate = industrial_validate anchor;
        })
  unfolding certificates
  certificates-loaded anchor_file_data presented_file_data h e =
      let (anchor, a, e1) = if_loaded-loaded _ _ _ e in
      let (presented, p, e2) = if_loaded-loaded _ _ _ e1 in (anchor, presented, a, p, cc)

  -- The chain that a handler presents has been verified against its anchor.
  verify_presented_chain-IsVouched :
      (anchor : CertificateBody) (file_data presented : Bytes)
      → verify_presented_chain anchor file_data ≡ loaded presented
      → (key : Bytes) × IsVouched anchor presented key
  unfolding verify_presented_chain IsVouched
  verify_presented_chain-IsVouched anchor file_data presented e =
      let ((payload, chain), read, e1) = if_loaded-loaded _ _ _ e in
      let (last, ran, e2) = if_loaded-loaded _ _ _ e1 in
      let (present, path, level, dh) =
        (verify_iff anchor last chain.certificates).0 (no_error-loaded _ _ ran) in
      let same : payload ≡ presented = cc in
      (
        last.public_key,
        (
          chain,
          last,
          ap (read_all certificate_chain_field) (sym same)
              ∙ read_chain-payload file_data payload chain read,
          present,
          path,
          level,
          dh,
          refl,
        ),
      )

  industrial_validate_iff :
      (anchor : CertificateBody) (mode : HandshakeMode) (certificate_data key : Bytes)
      → (industrial_validate anchor mode certificate_data ≡ trusted key)
        ↔ ((mode ≡ HandshakeMode.industrial_certificates) × IsVouched anchor certificate_data key)
  unfolding industrial_validate
  industrial_validate_iff anchor mode certificate_data key = (
    λ h.
        let (same, ran) = guard (not (is_industrial_certificates mode)) _ _ key h in
        (
          is_industrial_certificates_lem mode (not-false _ same),
          (validate_chain_iff anchor certificate_data key).0 ran,
        ),
    λ h. rw (h.0, industrial_validate) ((validate_chain_iff anchor certificate_data key).1 h.1),
  )

  -- A handler that is made from an anchor file and a chain file accepts exactly the data, in the
  -- mode of industrial certificates, that parse as a chain of certificates which is not empty and
  -- leads from the one certificate of the anchor file to a certificate of signing level 0 with an
  -- X25519 key, and it puts out that key.
  pub certificates-validate_iff :
      (anchor_file_data presented_file_data : Bytes) (h : CertificateHandler) (mode : HandshakeMode)
      (certificate_data key : Bytes)
      → certificates anchor_file_data presented_file_data ≡ loaded h
      → (anchor : CertificateBody) × (read_anchor_cert anchor_file_data ≡ loaded anchor)
        × ((h.validate mode certificate_data ≡ trusted key) ↔ (
            (mode ≡ HandshakeMode.industrial_certificates) × IsVouched anchor certificate_data key))
  certificates-validate_iff anchor_file_data presented_file_data h mode certificate_data key e =
      let (anchor, presented, a, p, same) =
        certificates-loaded anchor_file_data presented_file_data h e in
      (anchor, a, rw same (industrial_validate_iff anchor mode certificate_data key))

  -- Two parties whose handlers are made from the same anchor file accept the chains of each other:
  -- what one presents, in its mode, the other one validates.
  pub certificates_mutual :
      (anchor_file_data file_data1 file_data2 : Bytes) (h1 h2 : CertificateHandler)
      → certificates anchor_file_data file_data1 ≡ loaded h1
      → certificates anchor_file_data file_data2 ≡ loaded h2
      → (key : Bytes) × (h2.validate h1.mode h1.certificate_data ≡ trusted key)
  certificates_mutual anchor_file_data file_data1 file_data2 h1 h2 e1 e2 =
      let (anchor1, presented, a1, p1, same1) =
        certificates-loaded anchor_file_data file_data1 h1 e1 in
      let (anchor2, presented2, a2, p2, same2) =
        certificates-loaded anchor_file_data file_data2 h2 e2 in
      let same : anchor1 ≡ anchor2 = cc in
      let (key, vouched) = verify_presented_chain-IsVouched anchor1 file_data1 presented p1 in
      (
        key,
        rw (same1, same2)
            ((industrial_validate_iff anchor2 HandshakeMode.industrial_certificates presented key).1
              (refl, subst (λ (c : CertificateBody). IsVouched c presented key) same vouched)),
      )
