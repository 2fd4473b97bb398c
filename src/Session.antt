-- ===== src/Session.antt =====
-- A session of the cryptographic layer (cpp/libs/ssp21/src/crypto/Session.cpp, Nonce.h,
-- NonceFunctions.h, SessionMode.cpp, Sessions.cpp, TxState.h; include/ssp21/crypto/Statistics.h,
-- BufferTypes.h): its errors, its counters and its keys. The children have its operations.
pub mod Mode
pub mod State
pub mod Receive
pub mod Transmit
pub mod Configure
mod Tests
use ssp21_cpp.Base.{
  ℕ, ◌+◌, ◌%◌, ◌^◌, ◌≤◌, ◌<◌, Bool, true, false, ◌&&◌, Bytes, List, [], ◌∷◌, take, ◌==◌, ltb,
  if◌then◌else◌,
}
use ssp21_cpp.Wire.{FormatError}

-- CryptoError.h, without its `ok`, which a `Checked` spells `pass`.
pub data CryptoError : Type 0 where
  bad_key_type bad_length dh_x25519_fail undefined_algorithm mac_auth_fail : CryptoError
  signature_auth_fail bad_buffer_size no_valid_session expired_ttl nonce_replay : CryptoError
  max_nonce_exceeded max_session_time_exceeded empty_user_data clock_rollback : CryptoError
  aead_encrypt_fail aead_decrypt_fail : CryptoError

-- The value of a `std::error_code` that is set.
pub data ErrorCode : Type 0 where
  crypto : CryptoError → ErrorCode
  format : FormatError → ErrorCode

-- What a function with an argument `std::error_code& ec` gives: its value, or the error it sets.
pub data Checked {ℓ} (A : Type ℓ) : Type ℓ where
  pass : A → Checked A
  fail : ErrorCode → Checked A

-- Statistics.h
abbrev pub increment : ℕ → ℕ
increment value = (value + 1) % 2 ^ 64

pub record SessionStatistics : Type 0 where
  pub num_init : ℕ
  pub num_user_data_without_session : ℕ
  pub num_auth_fail : ℕ
  pub num_ttl_expiration : ℕ
  pub num_nonce_fail : ℕ
  pub num_success : ℕ

-- BufferTypes.h
pub data BufferLength : Type 0 where
  empty length_16 length_32 length_64 : BufferLength

abbrev pub lookup_length_in_bytes : BufferLength → ℕ
lookup_length_in_bytes length_16 = 16
lookup_length_in_bytes length_32 = 32
lookup_length_in_bytes length_64 = 64
lookup_length_in_bytes empty = 0

-- A `SecureBuffer`; `buffer` is its storage.
pub record SecureBuffer : Type 0 where
  pub length : BufferLength
  pub buffer : Bytes

abbrev pub as_seq : SecureBuffer → Bytes
as_seq b = take (lookup_length_in_bytes b.length) b.buffer

abbrev zero_memory : Bytes → Bytes
zero_memory [] = []
zero_memory (b ∷ bytes) = 0 ∷ zero_memory bytes

unfoldable pub zero_buffer : SecureBuffer → SecureBuffer
zero_buffer b = record { length = empty; buffer = zero_memory b.buffer }

pub record SessionKeys : Type 0 where
  pub rx_key : SecureBuffer
  pub tx_key : SecureBuffer

abbrev pub zero_keys : SessionKeys → SessionKeys
zero_keys keys = record { rx_key = zero_buffer keys.rx_key; tx_key = zero_buffer keys.tx_key }

-- `get_length() == BufferLength::length_32`
abbrev pub is_length_32 : BufferLength → Bool
is_length_32 length_32 = true
is_length_32 _ = false

abbrev pub valid_keys : SessionKeys → Bool
valid_keys keys = is_length_32 keys.rx_key.length && is_length_32 keys.tx_key.length

-- NonceFunctions.h
abbrev pub verify_strict_increment : ℕ → ℕ → Bool
verify_strict_increment last_nonce new_nonce =
    if last_nonce == 65535 then false else new_nonce == last_nonce + 1

abbrev pub verify_greater_than_last : ℕ → ℕ → Bool
verify_greater_than_last last_nonce new_nonce = ltb last_nonce new_nonce

abbrev pub equal_to_zero : ℕ → ℕ → Bool
equal_to_zero last_nonce new_nonce = (last_nonce == 0) && (new_nonce == 0)
