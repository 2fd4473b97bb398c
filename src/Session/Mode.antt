-- ===== src/Session/Mode.antt =====
-- SessionMode.cpp, and the mode of MacAdapters.h, which authenticates without encrypting. The
-- functions of the cryptographic backend are parameters.
pub mod RoundTrip
use ssp21_cpp.Base.{
  ℕ, ◌+◌, ◌-◌, ◌%◌, ◌^◌, ◌≡◌, ◌↔◌, Bool, true, not, Bytes, List, [], ◌∷◌, ◌++◌, length, take, drop,
  min, ltb, ◌==◌, if◌then◌else◌, Option, none, some,
}
use ssp21_cpp.Ser.{Ser4cpp, WSeq}
use ssp21_cpp.Wire.Structs.Handshake.{AuthMetadata, auth_metadata_field}
use ssp21_cpp.Wire.Messages.Bodies.{SessionData}
use ssp21_cpp.Session.{
  Checked, pass, fail, crypto, bad_buffer_size, bad_length, mac_auth_fail, SecureBuffer, as_seq,
  lookup_length_in_bytes,
}

-- `AEADResult`: the ciphertext and the authentication tag, or an error.
pub record Aead : Type 0 where
  pub ciphertext : Bytes
  pub auth_tag : Bytes

-- Of a destination only its length is passed.
pub record SessionMode : Type 0 where
  pub encrypt : SecureBuffer → ℕ → Bytes → Bytes → ℕ → Checked Aead
  pub decrypt : SecureBuffer → ℕ → Bytes → Bytes → Bytes → ℕ → Checked Bytes

abbrev pub symmetric_key_length : ℕ
symmetric_key_length = 32

unfoldable pub calc_user_data_tx_length : ℕ → ℕ → ℕ → ℕ
calc_user_data_tx_length total_user_data_len encrypt_buffer_len max_frame_payload =
    let value = min (min total_user_data_len encrypt_buffer_len) max_frame_payload in
    min value 65535 % 2 ^ 16

module _ ⦃ser : Ser4cpp⦄ where
  -- What a buffer of `n` bytes holds in the end.
  unfoldable pub get_metadata_bytes : AuthMetadata → Bytes
  get_metadata_bytes metadata =
      (auth_metadata_field.write metadata (record { space = 6; written = [] })).1.written

  unfoldable pub length_bytes : Option WSeq → Bytes
  length_bytes none = 0 ∷ 0 ∷ []
  length_bytes (some dest) = dest.written

  unfoldable pub get_user_data_length_bytes : ℕ → Bytes
  unfolding length_bytes
  get_user_data_length_bytes n = length_bytes (ser.write_u16 n (record { space = 2; written = [] }))

  unfoldable pub read : SessionMode → SecureBuffer → SessionData → ℕ → Checked Bytes
  read mode key msg dest =
      if not (lookup_length_in_bytes key.length == symmetric_key_length)
      then fail (crypto bad_buffer_size)
      else mode.decrypt key msg.metadata.nonce (get_metadata_bytes msg.metadata) msg.user_data
          msg.auth_tag dest

  -- The message, and the user data that remains after it.
  unfoldable pub message_of : AuthMetadata → Bytes → Checked Aead → Checked (SessionData × Bytes)
  message_of metadata remaining (pass r) =
      pass
        (record { metadata = metadata; user_data = r.ciphertext; auth_tag = r.auth_tag }, remaining)
  message_of metadata remaining (fail ec) = fail ec

  unfoldable pub write :
      SessionMode → SecureBuffer → AuthMetadata → Bytes → ℕ → Checked (SessionData × Bytes)
  unfolding message_of
  write mode key metadata user_data encrypt_buffer =
      let n = calc_user_data_tx_length (length user_data) encrypt_buffer 1024 in
      if not (lookup_length_in_bytes key.length == symmetric_key_length)
      then fail (crypto bad_buffer_size)
      else if encrypt_buffer == 0
      then fail (crypto bad_buffer_size)
      else message_of metadata (drop n user_data) (
          mode.encrypt key metadata.nonce (get_metadata_bytes metadata) (take n user_data)
            encrypt_buffer)

  -- A keyed MAC, cut to `trunc` bytes, and the backend's comparison.
  module _ (calc : Bytes → List Bytes → Bytes) (secure_equals : Bytes → Bytes → Bool)
      (trunc : ℕ) where
    unfoldable pub aead_mac_encrypt : SecureBuffer → ℕ → Bytes → Bytes → ℕ → Checked Aead
    aead_mac_encrypt key nonce ad cleartext encrypt_buffer =
        if ltb 65535 (length cleartext)
        then fail (crypto bad_length)
        else pass (record {
          ciphertext = cleartext;
          auth_tag = take trunc (
              calc (as_seq key)
                (ad ∷ get_user_data_length_bytes (length cleartext % 2 ^ 16) ∷ cleartext ∷ []));
        })

    -- The test is on the length of the destination, as the source has it.
    unfoldable pub aead_mac_decrypt : SecureBuffer → ℕ → Bytes → Bytes → Bytes → ℕ → Checked Bytes
    aead_mac_decrypt key nonce ad ciphertext auth_tag cleartext =
        let mac =
          calc (as_seq key)
            (ad ∷ get_user_data_length_bytes (length ciphertext % 2 ^ 16) ∷ ciphertext ∷ []) in
        if ltb 65535 cleartext
        then fail (crypto bad_length)
        else if not (secure_equals (take trunc mac) auth_tag)
        then fail (crypto mac_auth_fail)
        else pass ciphertext

    abbrev pub mac_mode : SessionMode
    mac_mode = record { encrypt = aead_mac_encrypt; decrypt = aead_mac_decrypt }
