-- ===== src/Handshake/Algorithms.antt =====
-- cpp/libs/ssp21/src/crypto/Algorithms.cpp, but for `Algorithms::Session`, which Session/Configure
-- has: the algorithms of a handshake, and how they are chosen.
pub mod Same
use ssp21_cpp.Base.{
  ◌≡◌, refl, sym, ap, ◌∙◌, Bool-cases, Bool, true, false, not, Bytes, List, if◌then◌else◌, inl, inr,
}
use ssp21_cpp.Session.Receive.Checks.{branch}
use ssp21_cpp.Wire.Enums.Handshake.{HandshakeError}
use ssp21_cpp.Wire.Enums.Suite.{
  HandshakeEphemeral, HandshakeHash, HandshakeKdf, SessionNonceMode, SessionCryptoMode,
}
use ssp21_cpp.Wire.Structs.Handshake.{CryptoSpec}
use ssp21_cpp.Session.{Checked, SecureBuffer, verify_strict_increment}
use ssp21_cpp.Session.State
use ssp21_cpp.Session.Configure.{configure, configure_mode}
use ssp21_cpp.Handshake.{KeyPair, CryptoBackend}

-- `any(err)`
abbrev pub any : HandshakeError → Bool
any HandshakeError.none = false
any _ = true

-- `Algorithms::Handshake`
pub record Handshake : Type 0 where
  pub kdf : Bytes → List Bytes → SecureBuffer × SecureBuffer
  pub hash : List Bytes → SecureBuffer

-- `Algorithms::Common`
pub record Common : Type 0 where
  pub session : State.Algorithms
  pub handshake : Handshake

-- `Algorithms::DH`
pub record Dh (R : Type 0) : Type 0 where
  pub dh : SecureBuffer → Bytes → Checked SecureBuffer
  pub gen_key_pair : R → KeyPair × R

-- What `get_or_throw` gives, or the error of the exception that it throws.
pub data Configured {ℓ} (A : Type ℓ) : Type ℓ where
  configured : A → Configured A
  thrown : HandshakeError → Configured A

abbrev pub get_or_throw {ℓ} : {A : Type ℓ} → HandshakeError × A → Configured A
get_or_throw (e, algorithms) = if any e then thrown e else configured algorithms

module _ {R : Type 0} (backend : CryptoBackend R) where
  -- The members' initializers.
  abbrev pub default_common : Common
  default_common = record {
    session = record {
      verify_nonce = verify_strict_increment;
      session_mode = backend.sessions.hmac_sha_256_trunc16;
    };
    handshake = record { kdf = backend.hkdf_sha256; hash = backend.hash_sha256 };
  }

  abbrev pub default_dh : Dh R
  default_dh = record { dh = backend.dh_x25519; gen_key_pair = backend.gen_keypair_x25519 }

  -- The second `switch` of `Algorithms::Handshake::configure`.
  abbrev configure_kdf : HandshakeKdf → Handshake → HandshakeError × Handshake
  configure_kdf HandshakeKdf.hkdf_sha256 a =
      if not backend.sessions.supports_sha256
      then (HandshakeError.unsupported_handshake_kdf, a)
      else (HandshakeError.none, record a { kdf = backend.hkdf_sha256 })
  configure_kdf HandshakeKdf.undefined a = (HandshakeError.unsupported_handshake_kdf, a)

  unfoldable pub configure_handshake :
      HandshakeHash → HandshakeKdf → Handshake → HandshakeError × Handshake
  configure_handshake HandshakeHash.sha256 kdf a =
      if not backend.sessions.supports_sha256
      then (HandshakeError.unsupported_handshake_hash, a)
      else configure_kdf kdf (record a { hash = backend.hash_sha256 })
  configure_handshake HandshakeHash.undefined kdf a = (HandshakeError.unsupported_handshake_hash, a)

  abbrev configure_session : CryptoSpec → Common → HandshakeError × Common
  configure_session spec a =
      let r =
        configure backend.sessions spec.session_nonce_mode spec.session_crypto_mode a.session in
      (r.0, record a { session = r.1 })

  abbrev after_handshake :
      CryptoSpec → Common → HandshakeError × Handshake → HandshakeError × Common
  after_handshake spec a (e, handshake) =
      let next = record a { handshake = handshake } in
      if any e then (e, next) else configure_session spec next

  -- `Algorithms::Common::configure`
  unfoldable pub configure_common : CryptoSpec → Common → HandshakeError × Common
  unfolding configure_handshake
  configure_common spec a =
      after_handshake spec a
        (configure_handshake spec.handshake_hash spec.handshake_kdf a.handshake)

  -- `Algorithms::DH::configure`
  unfoldable pub configure_dh : HandshakeEphemeral → Dh R → HandshakeError × Dh R
  configure_dh HandshakeEphemeral.x25519 a =
      if not backend.supports_x25519
      then (HandshakeError.unsupported_handshake_ephemeral, a)
      else (HandshakeError.none, default_dh)
  configure_dh _ a = (HandshakeError.unsupported_handshake_ephemeral, a)

  -- `Algorithms::Common::get_or_throw`
  abbrev pub get_common : CryptoSpec → Configured Common
  get_common suite = get_or_throw (configure_common suite default_common)

  -- `Algorithms::DH::get_or_throw`
  abbrev pub get_dh : HandshakeEphemeral → Configured (Dh R)
  get_dh type = get_or_throw (configure_dh type default_dh)
