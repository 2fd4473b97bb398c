-- ===== src/Delivery/Sent.antt =====
-- A session that is open sends: there is a message, and a frame for it.
use ssp21_cpp.Base.{
  ℕ, ◌+◌, ◌-◌, ◌%◌, ◌^◌, ◌≤◌, ◌<◌, ◌≡◌, refl, Bool, true, false, Bytes, List, ◌==◌, arith, length,
  take, length-take, ltb, leb, le→ltb,
}
use ssp21_cpp.Ser.{Ser4cpp}
use ssp21_cpp.Wire.{ok}
use ssp21_cpp.Wire.Structs.Handshake.{AuthMetadata}
use ssp21_cpp.Wire.Messages.Bodies.{SessionData, session_data_write}
use ssp21_cpp.Session.{pass, SecureBuffer, lookup_length_in_bytes}
use ssp21_cpp.Session.Mode.{mac_mode, write, aead_mac_encrypt, calc_user_data_tx_length}
use ssp21_cpp.Session.State.{Exe4cpp, milliseconds, Session}
use ssp21_cpp.Session.Transmit.{
  FrameWriter, format_session_data, format_session_data_no_nonce_check, frame_of, send,
  session_metadata,
}

-- A session that may send `now`.
pub record IsOpen ⦃exe : Exe4cpp⦄ (now : ℕ) (s : Session) : Type 0 where
  pub valid : s.valid ≡ true
  pub key : (lookup_length_in_bytes s.keys.tx_key.length == 32) ≡ true
  pub room : 0 < s.encrypt_buffer
  pub started : s.parameters.session_start ≤ now
  pub in_session :
      now - s.parameters.session_start + milliseconds s.ttl_pad_ms ≤ s.parameters.max_session_time
  pub nonce : s.tx_nonce < s.parameters.max_nonce
  pub u16 : s.parameters.max_nonce < 2 ^ 16

module _ ⦃ser : Ser4cpp⦄ (calc : Bytes → List Bytes → Bytes)
    (secure_equals : Bytes → Bytes → Bool) where
  pub written :
      (key : SecureBuffer) (metadata : AuthMetadata) (text : Bytes) (room : ℕ)
      → (lookup_length_in_bytes key.length == 32) ≡ true
      → 0 < room
      → (message : SessionData) × (rest : Bytes) × (write
            (mac_mode calc secure_equals 16)
            key
            metadata
            text
            room
          ≡ pass (message, rest))
  unfolding write aead_mac_encrypt calc_user_data_tx_length
  written key metadata text room k positive =
      let n = calc_user_data_tx_length (length text) room 1024 in
      let some_room : (room == 0) ≡ false = ground arith in
      let short : ltb 65535 (length (take n text)) ≡ false =
        le→ltb 65535 (length (take n text)) (omega (arith, length-take n text)) in
      rw (k, some_room, short) (_, _, refl)

module _ ⦃ser : Ser4cpp⦄ ⦃exe : Exe4cpp⦄ where
  pub format_session_data-sends :
      (frame_writer : FrameWriter) (now : ℕ) (text : Bytes) (s : Session) (message : SessionData)
      (rest written_bytes frame : Bytes)
      → IsOpen now s
      → write s.algorithms.session_mode s.keys.tx_key
          (session_metadata s (now - s.parameters.session_start))
          text
          s.encrypt_buffer
        ≡ pass (message, rest)
      → frame_writer.write (session_data_write message)
        ≡ record { err = ok; written = written_bytes; frame = frame }
      → format_session_data frame_writer now text s
        ≡ (pass frame, record s { tx_nonce = s.tx_nonce + 1 }, rest)
  unfolding format_session_data format_session_data_no_nonce_check send frame_of
  format_session_data-sends frame_writer now text s message rest written_bytes frame O made wrote =
      let below : leb s.parameters.max_nonce s.tx_nonce ≡ false = ground (arith, O.nonce) in
      let no_rollback : ltb now s.parameters.session_start ≡ false =
        le→ltb now s.parameters.session_start O.started in
      let time = now - s.parameters.session_start in
      let in_time : ltb s.parameters.max_session_time time ≡ false =
        le→ltb s.parameters.max_session_time time (omega (arith, O.in_session)) in
      let in_pad : ltb (s.parameters.max_session_time - time) (milliseconds s.ttl_pad_ms) ≡ false =
        le→ltb _ _ (omega (arith, O.in_session)) in
      let plain : (s.tx_nonce + 1) % 2 ^ 16 ≡ s.tx_nonce + 1 = omega (arith, O.nonce, O.u16) in
      simp (below, O.valid, no_rollback, in_time, in_pad, made, wrote, plain)
