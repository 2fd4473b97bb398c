-- ===== src/Handshake/ResponderHandshakes.antt =====
-- ResponderHandshakes.cpp of cpp/libs/ssp21/src/crypto: a responder's handshake of each mode.
use ssp21_cpp.Ser.{Ser4cpp}
use ssp21_cpp.Session.{SecureBuffer}
use ssp21_cpp.Session.State.{Exe4cpp}
use ssp21_cpp.Certificates.Handlers.{CertificateHandler}
use ssp21_cpp.Layer.Responder.{IResponderHandshake}
use ssp21_cpp.Handshake.{KeyPair, CryptoBackend}
use ssp21_cpp.Handshake.SharedSecret
use ssp21_cpp.Handshake.PublicKey
use ssp21_cpp.Handshake.Qkd

module _ ⦃ser : Ser4cpp⦄ ⦃exe : Exe4cpp⦄ {R : Type 0} (backend : CryptoBackend R) where
  abbrev pub shared_secret_mode : SecureBuffer → IResponderHandshake R
  shared_secret_mode key = SharedSecret.responder backend key

  abbrev pub qkd_mode : {K : Type 0} → Qkd.IKeyLookup K → IResponderHandshake K
  qkd_mode key_lookup = Qkd.responder backend key_lookup

  abbrev pub public_key_mode : KeyPair → CertificateHandler → IResponderHandshake R
  public_key_mode static_keys cert_handler = PublicKey.responder backend static_keys cert_handler
