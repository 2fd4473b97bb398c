-- ===== src/Handshake/Algorithms/Same.antt =====
-- What the configured algorithms are: the backend's, whatever they were before.
use ssp21_cpp.Base.{◌≡◌, refl, sym, ap, ◌∙◌, Bool-cases, false, inl, inr, arith}
use ssp21_cpp.Session.Receive.Checks.{branch}
use ssp21_cpp.Wire.Enums.Handshake.{HandshakeError}
use ssp21_cpp.Wire.Enums.Suite.{
  HandshakeEphemeral, HandshakeHash, HandshakeKdf, SessionNonceMode, SessionCryptoMode,
}
use ssp21_cpp.Wire.Structs.Handshake.{CryptoSpec}
use ssp21_cpp.Session.State
use ssp21_cpp.Session.Configure.{configure, configure_mode}
use ssp21_cpp.Handshake.{CryptoBackend}
use ssp21_cpp.Handshake.Algorithms.{
  any, Handshake, Common, Dh, configured, get_or_throw, default_common, default_dh,
  configure_handshake, after_handshake, configure_common, configure_dh, get_common, get_dh,
}

module _ {A : Type 0} where
  -- Algorithms that a constructor has got are those that `configure` gives without an error.
  pub get_or_throw-configured :
      (r : HandshakeError × A) (a : A)
      → get_or_throw r ≡ configured a
      → (any r.0 ≡ false) × (r.1 ≡ a)
  get_or_throw-configured (e, b) a h = elim (branch (any e) _ _ _ h) [
    | inl refused ↦ cc
    | inr fine ↦ (fine.0, cc)
  ]

module _ {R : Type 0} (backend : CryptoBackend R) where
  configure_handshake-default :
      (hash : HandshakeHash) (kdf : HandshakeKdf)
      → (configure_handshake backend hash kdf (default_common backend).handshake).1
        ≡ (default_common backend).handshake
  unfolding configure_handshake
  configure_handshake-default HandshakeHash.sha256 HandshakeKdf.hkdf_sha256 =
      elim (Bool-cases backend.sessions.supports_sha256) [
        | inl yes_sha ↦ rw yes_sha refl
        | inr no_sha ↦ rw no_sha refl
      ]
  configure_handshake-default HandshakeHash.sha256 HandshakeKdf.undefined =
      elim (Bool-cases backend.sessions.supports_sha256) [
        | inl yes_sha ↦ rw yes_sha refl
        | inr no_sha ↦ rw no_sha refl
      ]
  configure_handshake-default HandshakeHash.undefined kdf = refl

  after_handshake-handshake :
      (spec : CryptoSpec) (a : Common) (r : HandshakeError × Handshake)
      → (after_handshake backend spec a r).1.handshake ≡ r.1
  after_handshake-handshake spec a (e, handshake) = elim (Bool-cases (any e)) [
    | inl refused ↦ rw refused refl
    | inr fine ↦ rw fine refl
  ]

  -- However the algorithms are configured, they hash and derive by the backend's functions.
  pub get_common-handshake :
      (spec : CryptoSpec) (a : Common)
      → get_common backend spec ≡ configured a
      → a.handshake ≡ (default_common backend).handshake
  unfolding configure_common
  get_common-handshake spec a h =
      let (fine, same) = get_or_throw-configured _ a h in
      ap (λ (c : Common). c.handshake) (sym same)
      ∙ after_handshake-handshake spec (default_common backend) _
      ∙ configure_handshake-default spec.handshake_hash spec.handshake_kdf

  configure_dh-default :
      (type : HandshakeEphemeral)
      → (configure_dh backend type (default_dh backend)).1 ≡ default_dh backend
  unfolding configure_dh
  configure_dh-default HandshakeEphemeral.x25519 = elim (Bool-cases backend.supports_x25519) [
    | inl yes_dh ↦ rw yes_dh refl
    | inr no_dh ↦ rw no_dh refl
  ]
  configure_dh-default _ = refl

  -- There is one Diffie-Hellman function, and one generator of its keys.
  pub get_dh-default :
      (type : HandshakeEphemeral) (a : Dh R)
      → get_dh backend type ≡ configured a
      → (any (configure_dh backend type (default_dh backend)).0 ≡ false)
        × ((configure_dh backend type (default_dh backend)).1 ≡ default_dh backend)
        × (a ≡ default_dh backend)
  get_dh-default type a h =
      let (fine, same) = get_or_throw-configured _ a h in
      (fine, configure_dh-default type, sym same ∙ configure_dh-default type)

  configure_handshake-same :
      (hash : HandshakeHash) (kdf : HandshakeKdf) (a b : Handshake)
      → any (configure_handshake backend hash kdf a).0 ≡ false
      → configure_handshake backend hash kdf b ≡ configure_handshake backend hash kdf a
  unfolding configure_handshake
  configure_handshake-same HandshakeHash.sha256 HandshakeKdf.hkdf_sha256 a b fine = ground arith
  configure_handshake-same HandshakeHash.sha256 HandshakeKdf.undefined a b fine = ground arith
  configure_handshake-same HandshakeHash.undefined kdf a b fine = cc

  configure-same :
      (nonce_mode : SessionNonceMode) (session_mode : SessionCryptoMode) (a b : State.Algorithms)
      → any (configure backend.sessions nonce_mode session_mode a).0 ≡ false
      → configure backend.sessions nonce_mode session_mode b
        ≡ configure backend.sessions nonce_mode session_mode a
  unfolding configure configure_mode
  configure-same SessionNonceMode.greater_than_last_rx SessionCryptoMode.hmac_sha256_16 a b fine =
      ground arith
  configure-same SessionNonceMode.greater_than_last_rx SessionCryptoMode.aes_256_gcm a b fine =
      ground arith
  configure-same SessionNonceMode.greater_than_last_rx SessionCryptoMode.undefined a b fine = cc
  configure-same SessionNonceMode.strict_increment SessionCryptoMode.hmac_sha256_16 a b fine =
      ground arith
  configure-same SessionNonceMode.strict_increment SessionCryptoMode.aes_256_gcm a b fine =
      ground arith
  configure-same SessionNonceMode.strict_increment SessionCryptoMode.undefined a b fine = cc
  configure-same SessionNonceMode.undefined session_mode a b fine = cc

  after_handshake-same :
      (spec : CryptoSpec) (a b : Common) (r : HandshakeError × Handshake)
      → any (after_handshake backend spec a r).0 ≡ false
      → (any r.0 ≡ false) × (after_handshake backend spec b r ≡ after_handshake backend spec a r)
  after_handshake-same spec a b (e, handshake) fine = elim (Bool-cases (any e)) [
    | inl refused ↦ let refusal = rw refused at fine in cc
    | inr ran ↦
        let next = rw ran at fine in
        (
          ran,
          rw ran (
              ap
                (λ (r : HandshakeError × State.Algorithms).
                  let next : HandshakeError × Common =
                    (r.0, record { session = r.1; handshake = handshake }) in
                  next)
                (configure-same spec.session_nonce_mode spec.session_crypto_mode a.session b.session
                  next)),
        )
  ]

  -- What is configured without an error is configured the same once more.
  pub configure_common-same :
      (spec : CryptoSpec) (a b : Common)
      → any (configure_common backend spec a).0 ≡ false
      → configure_common backend spec b ≡ configure_common backend spec a
  unfolding configure_common
  configure_common-same spec a b fine =
      let configured_a =
        configure_handshake backend spec.handshake_hash spec.handshake_kdf a.handshake in
      let (ran, same) = after_handshake-same spec a b configured_a fine in
      ap (after_handshake backend spec b) (
        configure_handshake-same spec.handshake_hash spec.handshake_kdf a.handshake b.handshake ran)
      ∙ same
