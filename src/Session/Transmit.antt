-- ===== src/Session/Transmit.antt =====
-- How a session transmits: the `format` functions of Session.cpp, over the interface of
-- cpp/libs/ssp21/src/IFrameWriter.h.
pub mod Nonces
use ssp21_cpp.Base.{ℕ, ◌+◌, ◌-◌, ◌%◌, ◌^◌, ◌/◌, ◌==◌, Bytes, not, ltb, leb, if◌then◌else◌}
use ssp21_cpp.Ser.{Ser4cpp, WSeq}
use ssp21_cpp.Wire.{FormatError, ok, insufficient_space}
use ssp21_cpp.Wire.Structs.Handshake.{AuthMetadata}
use ssp21_cpp.Wire.Messages.{FormatResult}
use ssp21_cpp.Wire.Messages.Bodies.{SessionData, session_data_write}
use ssp21_cpp.Session.{
  Checked, pass, fail, crypto, format, CryptoError, no_valid_session, clock_rollback,
  max_session_time_exceeded, max_nonce_exceeded,
}
use ssp21_cpp.Session.Mode.{write}
use ssp21_cpp.Session.State.{Exe4cpp, milliseconds, Session}

-- `IWritable::write`
abbrev pub IWritable : Type 0
IWritable = WSeq → FormatResult × WSeq

pub record WriteResult : Type 0 where
  pub err : FormatError
  pub written : Bytes
  pub frame : Bytes

pub record FrameWriter : Type 0 where
  pub write : IWritable → WriteResult
  pub max_payload_size : ℕ

-- The frame, or the error, and the session after it, with the user data that remains.
abbrev pub Formatted : Type 0
Formatted = Checked Bytes × Session × Bytes

abbrev pub refuse : CryptoError → Session → Bytes → Formatted
refuse e s clear_text = (fail (crypto e), s, clear_text)

-- The user data has been advanced by `write` when the frame writer fails.
unfoldable pub frame_of : Session → Bytes → WriteResult → Formatted
frame_of s remaining result = elim result.err [
  | ok ↦ (pass result.frame, record s { tx_nonce = (s.tx_nonce + 1) % 2 ^ 16 }, remaining)
  | insufficient_space ↦ (fail (format insufficient_space), s, remaining)
]

module _ ⦃ser : Ser4cpp⦄ where
  unfoldable pub send : FrameWriter → Session → Bytes → Checked (SessionData × Bytes) → Formatted
  send frame_writer s clear_text (pass (message, remaining)) =
      frame_of s remaining (frame_writer.write (session_data_write message))
  send frame_writer s clear_text (fail ec) = (fail ec, s, clear_text)

module _ ⦃ser : Ser4cpp⦄ ⦃exe : Exe4cpp⦄ where
  -- `duration_cast` truncates to milliseconds.
  unfoldable pub session_metadata : Session → ℕ → AuthMetadata
  session_metadata s session_time = record {
    nonce = s.tx_nonce;
    valid_until_ms = ((session_time + milliseconds s.ttl_pad_ms) / exe.ticks_per_ms) % 2 ^ 32;
  }

  unfoldable pub format_session_data_no_nonce_check : FrameWriter → ℕ → Bytes → Session → Formatted
  format_session_data_no_nonce_check frame_writer now clear_text s =
      let session_time = now - s.parameters.session_start in
      let remainder = s.parameters.max_session_time - session_time in
      if not s.valid
      then refuse no_valid_session s clear_text
      else if ltb now s.parameters.session_start
      then refuse clock_rollback s clear_text
      else if ltb s.parameters.max_session_time session_time
      then refuse max_session_time_exceeded s clear_text
      else if ltb remainder (milliseconds s.ttl_pad_ms)
      then refuse max_session_time_exceeded s clear_text
      else send frame_writer s clear_text (
          write s.algorithms.session_mode s.keys.tx_key (session_metadata s session_time) clear_text
            s.encrypt_buffer)

  unfoldable pub format_session_auth : FrameWriter → ℕ → Bytes → Session → Formatted
  format_session_auth frame_writer now clear_text s =
      if not (s.tx_nonce == 0)
      then refuse max_nonce_exceeded s clear_text
      else format_session_data_no_nonce_check frame_writer now clear_text s

  unfoldable pub format_session_data : FrameWriter → ℕ → Bytes → Session → Formatted
  format_session_data frame_writer now clear_text s =
      if leb s.parameters.max_nonce s.tx_nonce
      then refuse max_nonce_exceeded s clear_text
      else format_session_data_no_nonce_check frame_writer now clear_text s
