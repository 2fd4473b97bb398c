-- ===== src/Handshake/InitiatorHandshakes.antt =====
-- InitiatorHandshakes.cpp of cpp/libs/ssp21/src/crypto: an initiator's handshake of each mode, whose
-- constructor configures its algorithms.
use ssp21_cpp.Ser.{Ser4cpp}
use ssp21_cpp.Wire.Structs.Handshake.{CryptoSpec}
use ssp21_cpp.Session.{SecureBuffer}
use ssp21_cpp.Session.State.{Exe4cpp}
use ssp21_cpp.Certificates.Handlers.{CertificateHandler}
use ssp21_cpp.Layer.Initiator.{IInitiatorHandshake}
use ssp21_cpp.Handshake.{KeyPair, CryptoBackend}
use ssp21_cpp.Handshake.Algorithms.{Configured, configured, thrown, get_common, get_dh}
use ssp21_cpp.Handshake.SharedSecret
use ssp21_cpp.Handshake.PublicKey
use ssp21_cpp.Handshake.Qkd

abbrev if_configured : {A B : Type 0} → Configured A → (A → Configured B) → Configured B
if_configured (configured a) f = f a
if_configured (thrown e) f = thrown e

module _ ⦃ser : Ser4cpp⦄ ⦃exe : Exe4cpp⦄ {R : Type 0} (backend : CryptoBackend R) where
  abbrev pub shared_secret_mode :
      CryptoSpec
      → SecureBuffer
      → Configured (IInitiatorHandshake (SharedSecret.SharedSecretInitiator R))
  shared_secret_mode crypto_suite key =
      if_configured (get_common backend crypto_suite)
        (λ algorithms. configured (SharedSecret.initiator backend algorithms crypto_suite key))

  abbrev pub qkd_mode :
      {K : Type 0}
      → CryptoSpec
      → Qkd.IKeySource K
      → Configured (IInitiatorHandshake (Qkd.QkdInitiator K))
  qkd_mode crypto_suite key_source =
      if_configured (get_common backend crypto_suite)
        (λ algorithms. configured (Qkd.initiator key_source algorithms crypto_suite))

  abbrev pub public_key_mode :
      CryptoSpec
      → KeyPair
      → CertificateHandler
      → Configured (IInitiatorHandshake (PublicKey.PublicKeyInitiator R))
  public_key_mode crypto_suite static_keys cert_handler =
      if_configured (get_common backend crypto_suite) (λ algorithms.
        if_configured (get_dh backend crypto_suite.handshake_ephemeral) (λ dh_algorithms.
          configured
            (PublicKey.initiator algorithms dh_algorithms static_keys cert_handler crypto_suite)))
