-- ===== src/Certificates/Trust.antt =====
-- What a chain of certificates that is verified has: every link of it is signed and nested.
use ssp21_cpp.Base.{
  ◌≤◌, ◌<◌, ◌≡◌, ◌≢◌, refl, ap, ◌∙◌, sym, ◌↔◌, Bool, true, false, not, List, [], ◌∷◌, length, ltb,
  ltb-false, ltb→lt, lt→ltb, le→ltb, ◌==◌, ==_iff, Option, none, some, if◌then◌else◌,
}
use mathlib.Core.Path.{subst}
use ssp21_cpp.Ser.{Ser4cpp}
use ssp21_cpp.Wire.{Parsed, ok, err}
use ssp21_cpp.Wire.Messages.{read_all}
use ssp21_cpp.Wire.Enums.Handshake.{HandshakeError, PublicKeyType}
use ssp21_cpp.Wire.Structs.Certificates.{
  CertificateBody, CertificateEnvelope, certificate_body_field,
}
use ssp21_cpp.Certificates.{
  Signatures, DsaInfo, Verified, trusted, rejected, if_trusted, is_dh_key, try_get_dsa_info,
  check_child, check_terminal, check_signed, verify_pair, verify_from, verify,
}

module _ ⦃ser : Ser4cpp⦄ ⦃signatures : Signatures⦄ where
  -- The parent vouches for the child, whose envelope it has signed.
  pub record IsIssued (parent : CertificateBody) (envelope : CertificateEnvelope)
      (child : CertificateBody) : Type 0 where
    pub key_type : parent.public_key_type ≡ PublicKeyType.ed25519
    pub supported : signatures.supports_ed25519 ≡ true
    pub signature_length : length envelope.signature ≡ 64
    pub signed :
        signatures.verify_ed25519 envelope.certificate_body envelope.signature parent.public_key
        ≡ true
    pub body : read_all certificate_body_field envelope.certificate_body ≡ ok child
    pub after : parent.valid_after ≤ child.valid_after
    pub before : child.valid_before ≤ parent.valid_before
    pub level : child.signing_level < parent.signing_level

  -- A path of such certificates from a parent to the last one.
  abbrev pub IsPath : CertificateBody → List CertificateEnvelope → CertificateBody → Type 0
  IsPath parent [] last = parent ≡ last
  IsPath parent (envelope ∷ envelopes) last =
      (child : CertificateBody) × IsIssued parent envelope child × IsPath child envelopes last

-- A guard that rejects, left behind by a run that trusts.
pub guard :
    {A : Type 0} (b : Bool) (e : HandshakeError) (rest : Verified A) (r : A)
    → (if b then rejected e else rest) ≡ trusted r
    → (b ≡ false) × (rest ≡ trusted r)
guard true e rest r h = cc
guard false e rest r h = (refl, h)

pub if_trusted-trusted {ℓ κ} :
    {A : Type ℓ} {B : Type κ} (v : Verified A) (f : A → Verified B) (r : B)
    → if_trusted v f ≡ trusted r
    → (a : A) × (v ≡ trusted a) × (f a ≡ trusted r)
if_trusted-trusted (trusted a) f r h = (a, refl, h)
if_trusted-trusted (rejected e) f r h = cc

pub not-false : (b : Bool) → not b ≡ false → b ≡ true
not-false true e = refl
not-false false e = cc

record IsNested (parent child : CertificateBody) : Type 0 where
  after : parent.valid_after ≤ child.valid_after
  before : child.valid_before ≤ parent.valid_before
  level : child.signing_level < parent.signing_level

check_child-IsNested :
    (parent : CertificateBody) (p : Parsed CertificateBody) (r : CertificateBody)
    → check_child parent p ≡ trusted r
    → (p ≡ ok r) × IsNested parent r
unfolding check_child
check_child-IsNested parent (err e) r h = cc
check_child-IsNested parent (ok child) r h =
    let (a, h1) = guard (ltb child.valid_after parent.valid_after) _ _ r h in
    let (b, h2) = guard (ltb parent.valid_before child.valid_before) _ _ r h1 in
    let (c, h3) = guard (not (ltb child.signing_level parent.signing_level)) _ _ r h2 in
    let same : child ≡ r = cc in
    (
      ap ok same,
      subst (IsNested parent) same (record {
        after = ltb-false _ _ a;
        before = ltb-false _ _ b;
        level = ltb→lt _ _ (not-false _ c);
      }),
    )

check_child_accepts :
    (parent child : CertificateBody)
    → parent.valid_after ≤ child.valid_after
    → child.valid_before ≤ parent.valid_before
    → child.signing_level < parent.signing_level
    → check_child parent (ok child) ≡ trusted child
unfolding check_child
check_child_accepts parent child a b c = rw (
  le→ltb child.valid_after parent.valid_after a,
  le→ltb parent.valid_before child.valid_before b,
  lt→ltb child.signing_level parent.signing_level c,
)

check_terminal_iff :
    (parent r : CertificateBody)
    → (check_terminal parent ≡ trusted r)
      ↔ ((parent ≡ r) × (r.signing_level ≡ 0) × (r.public_key_type ≡ PublicKeyType.x25519))
unfolding check_terminal
check_terminal_iff parent r = (forward, backward)
  where
    dh_key : (t : PublicKeyType) → is_dh_key t ≡ true → t ≡ PublicKeyType.x25519
    dh_key PublicKeyType.x25519 e = refl
    dh_key PublicKeyType.ed25519 e = cc
    dh_key PublicKeyType.undefined e = cc

    accepts :
        (c : CertificateBody)
        → c.signing_level ≡ 0
        → c.public_key_type ≡ PublicKeyType.x25519
        → check_terminal c ≡ trusted c
    accepts c level dh = simp (check_terminal, level, dh)

    forward :
        check_terminal parent ≡ trusted r
        → (parent ≡ r) × (r.signing_level ≡ 0) × (r.public_key_type ≡ PublicKeyType.x25519)
    forward h =
        let (a, h1) = guard (not (parent.signing_level == 0)) _ _ r h in
        let (b, h2) = guard (not (is_dh_key parent.public_key_type)) _ _ r h1 in
        let same : parent ≡ r = cc in
        (
          same,
          ap (λ (c : CertificateBody). c.signing_level) (sym same) ∙ (==_iff _ _).0 (not-false _ a),
          ap (λ (c : CertificateBody). c.public_key_type) (sym same) ∙ dh_key _ (not-false _ b),
        )

    backward :
        (parent ≡ r) × (r.signing_level ≡ 0) × (r.public_key_type ≡ PublicKeyType.x25519)
        → check_terminal parent ≡ trusted r
    backward (same, level, dh) = ap check_terminal same ∙ accepts r level dh

module _ ⦃ser : Ser4cpp⦄ ⦃signatures : Signatures⦄ where
  -- What `try_get_dsa_info` gives for Ed25519.
  abbrev ed25519_info : Bool → Option DsaInfo
  ed25519_info b =
      if b
      then some (record { verify = signatures.verify_ed25519; signature_length = 64 })
      else none

  issuing :
      (parent : CertificateBody) (envelope : CertificateEnvelope) (r : CertificateBody)
      {o p : Option DsaInfo}
      → o ≡ p
      → check_signed o parent envelope ≡ trusted r
      → check_signed p parent envelope ≡ trusted r
  issuing parent envelope r e = subst (λ o. check_signed o parent envelope ≡ trusted r) e

  verify_pair-IsIssued :
      (parent : CertificateBody) (envelope : CertificateEnvelope) (r : CertificateBody)
      → verify_pair parent envelope ≡ trusted r
      → IsIssued parent envelope r
  unfolding verify_pair try_get_dsa_info check_signed
  verify_pair-IsIssued parent envelope r h =
      by_type parent.public_key_type signatures.supports_ed25519 refl refl h
    where
      by_type :
          (t : PublicKeyType) (b : Bool)
          → parent.public_key_type ≡ t
          → signatures.supports_ed25519 ≡ b
          → check_signed (try_get_dsa_info t) parent envelope ≡ trusted r
          → IsIssued parent envelope r
      by_type PublicKeyType.ed25519 true same supported h =
          let h0 = issuing parent envelope r (ap ed25519_info supported) h in
          let (a, h1) = guard (not (64 == length envelope.signature)) _ _ r h0 in
          let verified =
            signatures.verify_ed25519 envelope.certificate_body envelope.signature
              parent.public_key in
          let (b, h2) = guard (not verified) _ _ r h1 in
          let (body, nested) = check_child-IsNested parent _ r h2 in
          record {
            key_type = same;
            supported = supported;
            signature_length = sym ((==_iff _ _).0 (not-false _ a));
            signed = not-false _ b;
            body = body;
            after = nested.after;
            before = nested.before;
            level = nested.level;
          }
      by_type PublicKeyType.ed25519 false same supported h =
          let h0 = issuing parent envelope r (ap ed25519_info supported) h in cc
      by_type PublicKeyType.x25519 b same supported h = cc
      by_type PublicKeyType.undefined b same supported h = cc

  verify_pair_accepts :
      (parent child : CertificateBody) (envelope : CertificateEnvelope)
      → IsIssued parent envelope child
      → verify_pair parent envelope ≡ trusted child
  unfolding verify_pair try_get_dsa_info check_signed
  verify_pair_accepts parent child envelope I =
      rw (I.key_type, try_get_dsa_info, I.supported, I.signature_length, I.signed, I.body)
        (check_child_accepts parent child I.after I.before I.level)

  verify_from_iff :
      (parent r : CertificateBody) (envelopes : List CertificateEnvelope)
      → (verify_from parent envelopes ≡ trusted r) ↔ (
          IsPath parent envelopes r
          × (r.signing_level ≡ 0)
          × (r.public_key_type ≡ PublicKeyType.x25519))
  unfolding verify_from
  verify_from_iff parent r [] = check_terminal_iff parent r
  verify_from_iff parent r (envelope ∷ envelopes) = (
    λ h.
        let (child, issued, rest) = if_trusted-trusted (verify_pair parent envelope) _ r h in
        let (path, level, dh) = (verify_from_iff child r envelopes).0 rest in
        ((child, verify_pair-IsIssued parent envelope child issued, path), level, dh),
    λ h.
        let (child, issued, path) = h.0 in
        rw (verify_from, verify_pair_accepts parent child envelope issued)
          ((verify_from_iff child r envelopes).1 (path, h.1, h.2)),
  )

  -- `Chain::verify` trusts a certificate exactly where the chain of envelopes is not empty and leads
  -- from the anchor to it: each certificate has an Ed25519 key, which the backend supports, and has
  -- signed the next one with a signature of 64 bytes, the next one's body parses, its time of
  -- validity is inside its issuer's and its signing level is below its issuer's; and the last one
  -- has signing level 0 and an X25519 key.
  pub verify_iff :
      (anchor r : CertificateBody) (envelopes : List CertificateEnvelope)
      → (verify anchor envelopes ≡ trusted r) ↔ (
          (envelopes ≢ [])
          × IsPath anchor envelopes r
          × (r.signing_level ≡ 0)
          × (r.public_key_type ≡ PublicKeyType.x25519))
  unfolding verify
  verify_iff anchor r [] = (λ h. cc, λ h. absurd (h.0 refl))
  verify_iff anchor r (child ∷ children) =
      let (forward, backward) = verify_from_iff anchor r (child ∷ children) in
      (
        λ h. let (path, level, dh) = forward h in (λ none. cc, path, level, dh),
        λ h. backward (h.1, h.2, h.3),
      )
