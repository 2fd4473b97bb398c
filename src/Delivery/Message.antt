-- ===== src/Delivery/Message.antt =====
-- The message that a session writes fits a frame, and is read back.
use ssp21_cpp.Base.{
  ℕ, ◌+◌, ◌/◌, ◌%◌, ◌^◌, ◌≤◌, ◌<◌, ◌≡◌, sym, ap, Bool, Bytes, List, [], ◌∷◌, All, All-take, IsByte,
  arith, length, length-append, length-take, min,
}
use native.Mathlib.Nat.{mod-add-div', mod-lt}
use mathlib.Core.Path.{subst}
use ssp21_cpp.Ser.{Ser4cpp}
use ssp21_cpp.Wire.VLength.Format.{encode, length-counted, num_values_bytes-le}
use ssp21_cpp.Wire.VLength.{num_values_bytes}
use ssp21_cpp.Wire.Fields.ByteSeq.{seq_bytes}
use ssp21_cpp.Wire.Structs.Handshake.{AuthMetadata}
use ssp21_cpp.Wire.Messages.Bodies.{SessionData}
use ssp21_cpp.Wire.Messages.Format.{IsSessionData}
use ssp21_cpp.Wire.Messages.RoundTrip.{session_data_wire}
use ssp21_cpp.Session.{pass, as_seq}
use ssp21_cpp.Session.Mode.{
  SessionMode, write, mac_mode, get_metadata_bytes, get_user_data_length_bytes,
}
use ssp21_cpp.Session.Mode.RoundTrip.{mac_write-pass, tag_of}
use ssp21_cpp.Session.State.{Exe4cpp, milliseconds, Session}
use ssp21_cpp.Session.Transmit.{session_metadata}

length-encode-le : (v : ℕ) → length (encode v) ≤ 5
unfolding encode
length-encode-le v = omega (arith, length-counted (num_values_bytes v) v, num_values_bytes-le v)

module _ ⦃ser : Ser4cpp⦄ ⦃exe : Exe4cpp⦄ (calc : Bytes → List Bytes → Bytes)
    (secure_equals : Bytes → Bytes → Bool) where
  -- `SessionModes::hmac_sha_256_trunc16`
  abbrev pub trunc16_mode : SessionMode
  trunc16_mode = mac_mode calc secure_equals 16

  pub written-IsSessionData :
      (s : Session) (session_time : ℕ) (clear_text : Bytes) (message : SessionData) (rest : Bytes)
      → ((key : Bytes) (parts : List Bytes) → All IsByte (calc key parts))
      → All IsByte clear_text
      → s.tx_nonce < 2 ^ 16
      → write trunc16_mode s.keys.tx_key
          (session_metadata s session_time)
          clear_text
          s.encrypt_buffer
        ≡ pass (message, rest)
      → IsSessionData message × (length (session_data_wire message) ≤ 1057)
  unfolding session_metadata tag_of
  written-IsSessionData s session_time clear_text message rest bytes clear small written =
      let (k, metadata, user_data, tag) =
        mac_write-pass calc secure_equals 16 s.keys.tx_key (session_metadata s session_time)
          clear_text s.encrypt_buffer message rest written in
      let n = min (min (length clear_text) s.encrypt_buffer) 1024 in
      let data_length : length message.user_data ≤ 1024 =
        omega (arith, ap length user_data, length-take n clear_text) in
      let tag_length : length message.auth_tag ≤ 16 = omega (
        arith,
        ap length tag,
        length-take 16 (
            calc (as_seq s.keys.tx_key) (
              get_metadata_bytes message.metadata
              ∷ get_user_data_length_bytes (length message.user_data % 2 ^ 16)
              ∷ message.user_data
              ∷ [])),
      ) in
      let nonce = ap (λ (m : AuthMetadata). m.nonce) metadata in
      let until = ap (λ (m : AuthMetadata). m.valid_until_ms) metadata in
      let data_bytes = subst (All IsByte) (sym user_data) (All-take IsByte n clear_text clear) in
      let tag_bytes = subst (All IsByte) (sym tag) (All-take IsByte 16 _ (bytes _ _)) in
      let sizes = length-append (seq_bytes message.user_data) (seq_bytes message.auth_tag) in
      let sizes2 = length-append (encode (length message.user_data)) message.user_data in
      let sizes3 = length-append (encode (length message.auth_tag)) message.auth_tag in
      (
        (
          (omega (arith, nonce, small), omega (arith, until)),
          ((omega (arith, data_length), data_bytes), (omega (arith, tag_length), tag_bytes)),
        ),
        omega (
          arith,
          data_length,
          tag_length,
          sizes,
          sizes2,
          sizes3,
          length-encode-le (length message.user_data),
          length-encode-le (length message.auth_tag),
        ),
      )

module _ ⦃exe : Exe4cpp⦄ where
  -- A time that is cut to milliseconds is less than one of them earlier.
  pub milliseconds-div :
      (time : ℕ) → time < milliseconds (time / exe.ticks_per_ms) + exe.ticks_per_ms
  milliseconds-div time =
      omega (arith, mod-add-div' time exe.ticks_per_ms, mod-lt time exe.positive)
