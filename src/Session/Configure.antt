-- ===== src/Session/Configure.antt =====
-- `Algorithms::Session::configure` of cpp/libs/ssp21/src/crypto/Algorithms.cpp. What the backend
-- supports, and its two session modes, are parameters.
use mathlib.Core.Path.{subst}
use ssp21_cpp.Base.{arith, ◌≡◌, ◌⊎◌, sym, ap, inl, inr, Bool, true, false, not, if◌then◌else◌}
use ssp21_cpp.Wire.Enums.Handshake.{HandshakeError}
use ssp21_cpp.Wire.Enums.Suite.{SessionNonceMode, SessionCryptoMode}
use ssp21_cpp.Session.{verify_strict_increment, verify_greater_than_last}
use ssp21_cpp.Session.Mode.{SessionMode}
use ssp21_cpp.Session.State.{Algorithms}
use ssp21_cpp.Session.Receive.Replay.{
  IsIncreasing, verify_strict_increment-IsIncreasing, verify_greater_than_last-IsIncreasing,
}

pub record Backend : Type 0 where
  pub supports_sha256 : Bool
  pub supports_aes256_gcm : Bool
  pub hmac_sha_256_trunc16 : SessionMode
  pub aes_256_gcm : SessionMode

abbrev pub use_mode : Bool → SessionMode → Algorithms → HandshakeError × Algorithms
use_mode supported mode a =
    if not supported
    then (HandshakeError.unsupported_session_mode, a)
    else (HandshakeError.none, record a { session_mode = mode })

-- The second `switch`.
unfoldable pub configure_mode :
    Backend → SessionCryptoMode → Algorithms → HandshakeError × Algorithms
configure_mode backend SessionCryptoMode.hmac_sha256_16 a =
    use_mode backend.supports_sha256 backend.hmac_sha_256_trunc16 a
configure_mode backend SessionCryptoMode.aes_256_gcm a =
    use_mode backend.supports_aes256_gcm backend.aes_256_gcm a
configure_mode backend SessionCryptoMode.undefined a = (HandshakeError.unsupported_session_mode, a)

-- The nonce function is set before the session mode is looked at.
unfoldable pub configure :
    Backend → SessionNonceMode → SessionCryptoMode → Algorithms → HandshakeError × Algorithms
unfolding configure_mode
configure backend SessionNonceMode.greater_than_last_rx session_mode a =
    configure_mode backend session_mode (record a { verify_nonce = verify_greater_than_last })
configure backend SessionNonceMode.strict_increment session_mode a =
    configure_mode backend session_mode (record a { verify_nonce = verify_strict_increment })
configure backend SessionNonceMode.undefined session_mode a =
    (HandshakeError.unsupported_nonce_mode, a)

configure_mode-keeps :
    (backend : Backend) (session_mode : SessionCryptoMode) (a a' : Algorithms)
    → configure_mode backend session_mode a ≡ (HandshakeError.none, a')
    → (a'.verify_nonce ≡ a.verify_nonce)
      × ((a'.session_mode ≡ backend.hmac_sha_256_trunc16) ⊎ (a'.session_mode ≡ backend.aes_256_gcm))
unfolding configure_mode
configure_mode-keeps backend SessionCryptoMode.hmac_sha256_16 a a' e =
    supported backend.supports_sha256 e
  where
    supported :
        (b : Bool)
        → use_mode b backend.hmac_sha_256_trunc16 a ≡ (HandshakeError.none, a')
        → (a'.verify_nonce ≡ a.verify_nonce)
          × ((a'.session_mode ≡ backend.hmac_sha_256_trunc16)
              ⊎ (a'.session_mode ≡ backend.aes_256_gcm))
    supported true e =
        let next = sym (ap (λ (r : HandshakeError × Algorithms). r.1) e) in
        (
          ap (λ (t : Algorithms). t.verify_nonce) next,
          inl (ap (λ (t : Algorithms). t.session_mode) next),
        )
    supported false e = ground arith
configure_mode-keeps backend SessionCryptoMode.aes_256_gcm a a' e =
    supported backend.supports_aes256_gcm e
  where
    supported :
        (b : Bool)
        → use_mode b backend.aes_256_gcm a ≡ (HandshakeError.none, a')
        → (a'.verify_nonce ≡ a.verify_nonce)
          × ((a'.session_mode ≡ backend.hmac_sha_256_trunc16)
              ⊎ (a'.session_mode ≡ backend.aes_256_gcm))
    supported true e =
        let next = sym (ap (λ (r : HandshakeError × Algorithms). r.1) e) in
        (
          ap (λ (t : Algorithms). t.verify_nonce) next,
          inr (ap (λ (t : Algorithms). t.session_mode) next),
        )
    supported false e = ground arith
configure_mode-keeps backend SessionCryptoMode.undefined a a' e = ground arith

-- Algorithms that have been configured without an error verify nonces by a function that passes
-- larger nonces only, and use one of the backend's two session modes.
pub configure-IsIncreasing :
    (backend : Backend) (nonce_mode : SessionNonceMode) (session_mode : SessionCryptoMode)
    (a a' : Algorithms)
    → configure backend nonce_mode session_mode a ≡ (HandshakeError.none, a')
    → IsIncreasing a'.verify_nonce
      × ((a'.session_mode ≡ backend.hmac_sha_256_trunc16) ⊎ (a'.session_mode ≡ backend.aes_256_gcm))
unfolding configure
configure-IsIncreasing backend SessionNonceMode.greater_than_last_rx session_mode a a' e =
    let (same, mode) = configure_mode-keeps backend session_mode _ a' e in
    (subst IsIncreasing (sym same) verify_greater_than_last-IsIncreasing, mode)
configure-IsIncreasing backend SessionNonceMode.strict_increment session_mode a a' e =
    let (same, mode) = configure_mode-keeps backend session_mode _ a' e in
    (subst IsIncreasing (sym same) verify_strict_increment-IsIncreasing, mode)
configure-IsIncreasing backend SessionNonceMode.undefined session_mode a a' e = ground arith
