-- ===== src/Handshake.antt =====
-- What the handshakes use of the cryptographic backend (cpp/libs/ssp21/src/crypto/Crypto.cpp calls it
-- behind its support checks), and the keys and hashes that they share. The children have the
-- algorithms of a handshake and one module for each of its modes.
pub mod Algorithms
pub mod Start
pub mod Peers
pub mod SharedSecret
pub mod PublicKey
pub mod Qkd
pub mod InitiatorHandshakes
pub mod ResponderHandshakes
mod Tests
use ssp21_cpp.Base.{ℕ, Bool, true, false, Bytes, List, [], ◌∷◌}
use ssp21_cpp.Session.{Checked, pass, fail, ErrorCode, SecureBuffer, as_seq}
use ssp21_cpp.Session.Configure.{Backend}

-- `KeyPair`, and `StaticKeys` of StaticKeys.h, which has the same two keys.
pub record KeyPair : Type 0 where
  pub public_key : SecureBuffer
  pub private_key : SecureBuffer

-- The functions that Crypto.cpp forwards to. What a function writes to its output is its result; the
-- source of randomness is a state `R`.
pub record CryptoBackend (R : Type 0) : Type 0 where
  pub sessions : Backend
  pub supports_x25519 : Bool
  pub hash_sha256 : List Bytes → SecureBuffer
  pub hkdf_sha256 : Bytes → List Bytes → SecureBuffer × SecureBuffer
  pub dh_x25519 : SecureBuffer → Bytes → Checked SecureBuffer
  pub gen_keypair_x25519 : R → KeyPair × R
  pub gen_random : ℕ → R → Bytes × R

-- `HandshakeHasher::compute`, which hashes the hash of the first sequence with the second one.
unfoldable pub compute_hash : (List Bytes → SecureBuffer) → Bytes → Bytes → SecureBuffer
compute_hash hash first second = hash (as_seq (hash (first ∷ [])) ∷ second ∷ [])

-- `TripleDH::Result`
pub record TripleDh : Type 0 where
  pub dh1 : Bytes
  pub dh2 : Bytes
  pub dh3 : Bytes

abbrev if_pass : Checked SecureBuffer → (SecureBuffer → Checked TripleDh) → Checked TripleDh
if_pass (pass output) f = f output
if_pass (fail ec) f = fail ec

-- `TripleDH::compute`
unfoldable pub compute_triple_dh :
    (SecureBuffer → Bytes → Checked SecureBuffer)
    → KeyPair
    → KeyPair
    → Bytes
    → Bytes
    → Checked TripleDh
compute_triple_dh dh static_keys ephemeral_keys remote_public_static remote_public_ephemeral =
    if_pass (dh ephemeral_keys.private_key remote_public_ephemeral) (λ dh1.
      if_pass (dh ephemeral_keys.private_key remote_public_static) (λ dh2.
        if_pass (dh static_keys.private_key remote_public_ephemeral)
          (λ dh3. pass (record { dh1 = as_seq dh1; dh2 = as_seq dh2; dh3 = as_seq dh3 }))))
