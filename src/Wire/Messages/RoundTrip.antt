-- ===== src/Wire/Messages/RoundTrip.antt =====
-- What is written of a message is read back, and a message has one encoding.
use ssp21_cpp.Base.{◌≤◌, ◌≡◌, refl, sym, ◌∙◌, ◌∷◌, Bytes, IsByte, All, length}
use ssp21_cpp.Ser.{Ser4cpp, WSeq, fill}
use ssp21_cpp.Wire.{ok, FormatError}
use ssp21_cpp.Wire.Enums.Handshake.{Function, function_spec}
use ssp21_cpp.Wire.Messages.Framing.{read_message-bytes, write_message-bytes, read_message_sound}
use ssp21_cpp.Wire.Messages.Bodies.{
  RequestHandshakeBegin, request_handshake_begin_read, request_handshake_begin_write,
  ReplyHandshakeBegin, reply_handshake_begin_read, reply_handshake_begin_write, ReplyHandshakeError,
  reply_handshake_error_read, reply_handshake_error_write, SessionData, session_data_read,
  session_data_write,
}
use ssp21_cpp.Wire.Messages.Format.{
  IsRequestHandshakeBegin, request_handshake_begin_bytes, request_handshake_begin_field-IsCodec,
  IsReplyHandshakeBegin, reply_handshake_begin_bytes, reply_handshake_begin_field-IsCodec,
  IsReplyHandshakeError, reply_handshake_error_bytes, reply_handshake_error_field-IsCodec,
  IsSessionData, session_data_bytes, session_data_field-IsCodec,
}

-- The whole message on the wire.
abbrev pub request_handshake_begin_wire : RequestHandshakeBegin → Bytes
request_handshake_begin_wire m = 0 ∷ request_handshake_begin_bytes m

-- The whole message on the wire.
abbrev pub reply_handshake_begin_wire : ReplyHandshakeBegin → Bytes
reply_handshake_begin_wire m = 1 ∷ reply_handshake_begin_bytes m

-- The whole message on the wire.
abbrev pub reply_handshake_error_wire : ReplyHandshakeError → Bytes
reply_handshake_error_wire m = 2 ∷ reply_handshake_error_bytes m

-- The whole message on the wire.
abbrev pub session_data_wire : SessionData → Bytes
session_data_wire m = 3 ∷ session_data_bytes m

module _ ⦃ser : Ser4cpp⦄ where
  request_handshake_begin_write-wire :
      (m : RequestHandshakeBegin) (w : WSeq)
      → IsRequestHandshakeBegin m
      → length (request_handshake_begin_wire m) ≤ w.space
      → request_handshake_begin_write m w ≡ (
        record { err = FormatError.ok; written = request_handshake_begin_wire m },
        fill w (request_handshake_begin_wire m),
      )
  unfolding request_handshake_begin_write function_spec
  request_handshake_begin_write-wire m w h room =
      write_message-bytes request_handshake_begin_field-IsCodec Function.request_handshake_begin
        refl m w h room

  pub request_handshake_begin_read-wire :
      (m : RequestHandshakeBegin)
      → IsRequestHandshakeBegin m
      → request_handshake_begin_read (request_handshake_begin_wire m) ≡ ok m
  unfolding request_handshake_begin_read function_spec
  request_handshake_begin_read-wire m h =
      read_message-bytes request_handshake_begin_field-IsCodec Function.request_handshake_begin refl
        m h

  -- A valid message that fits the view is written without an error, and the bytes written are read
  -- back as that message.
  pub request_handshake_begin_read-write :
      (m : RequestHandshakeBegin) (w : WSeq)
      → IsRequestHandshakeBegin m
      → length (request_handshake_begin_wire m) ≤ w.space
      → ((request_handshake_begin_write m w).0.err ≡ FormatError.ok)
        × (request_handshake_begin_read (request_handshake_begin_write m w).0.written ≡ ok m)
  unfolding request_handshake_begin_read function_spec
  request_handshake_begin_read-write m w h room =
      rw (request_handshake_begin_write-wire m w h room) (
        refl,
        read_message-bytes request_handshake_begin_field-IsCodec Function.request_handshake_begin
            refl m h,
      )

  -- Two byte sequences that are read as the same message are equal.
  pub request_handshake_begin_read_unique :
      (m : RequestHandshakeBegin) (s t : Bytes)
      → All IsByte s
      → All IsByte t
      → request_handshake_begin_read s ≡ ok m
      → request_handshake_begin_read t ≡ ok m
      → s ≡ t
  unfolding request_handshake_begin_read function_spec
  request_handshake_begin_read_unique m s t hs ht es et =
      (read_message_sound request_handshake_begin_field-IsCodec Function.request_handshake_begin
        refl s m hs es).1
      ∙ sym
          (read_message_sound request_handshake_begin_field-IsCodec Function.request_handshake_begin
            refl t m ht et).1

  pub reply_handshake_begin_write-wire :
      (m : ReplyHandshakeBegin) (w : WSeq)
      → IsReplyHandshakeBegin m
      → length (reply_handshake_begin_wire m) ≤ w.space
      → reply_handshake_begin_write m w ≡ (
        record { err = FormatError.ok; written = reply_handshake_begin_wire m },
        fill w (reply_handshake_begin_wire m),
      )
  unfolding reply_handshake_begin_write function_spec
  reply_handshake_begin_write-wire m w h room =
      write_message-bytes reply_handshake_begin_field-IsCodec Function.reply_handshake_begin refl m
        w h room

  pub reply_handshake_begin_read-wire :
      (m : ReplyHandshakeBegin)
      → IsReplyHandshakeBegin m
      → reply_handshake_begin_read (reply_handshake_begin_wire m) ≡ ok m
  unfolding reply_handshake_begin_read function_spec
  reply_handshake_begin_read-wire m h =
      read_message-bytes reply_handshake_begin_field-IsCodec Function.reply_handshake_begin refl m h

  -- A valid message that fits the view is written without an error, and the bytes written are read
  -- back as that message.
  pub reply_handshake_begin_read-write :
      (m : ReplyHandshakeBegin) (w : WSeq)
      → IsReplyHandshakeBegin m
      → length (reply_handshake_begin_wire m) ≤ w.space
      → ((reply_handshake_begin_write m w).0.err ≡ FormatError.ok)
        × (reply_handshake_begin_read (reply_handshake_begin_write m w).0.written ≡ ok m)
  unfolding reply_handshake_begin_read function_spec
  reply_handshake_begin_read-write m w h room = rw (reply_handshake_begin_write-wire m w h room) (
    refl,
    read_message-bytes reply_handshake_begin_field-IsCodec Function.reply_handshake_begin refl m h,
  )

  -- Two byte sequences that are read as the same message are equal.
  pub reply_handshake_begin_read_unique :
      (m : ReplyHandshakeBegin) (s t : Bytes)
      → All IsByte s
      → All IsByte t
      → reply_handshake_begin_read s ≡ ok m
      → reply_handshake_begin_read t ≡ ok m
      → s ≡ t
  unfolding reply_handshake_begin_read function_spec
  reply_handshake_begin_read_unique m s t hs ht es et =
      (read_message_sound reply_handshake_begin_field-IsCodec Function.reply_handshake_begin refl s
        m hs es).1
      ∙ sym
          (read_message_sound reply_handshake_begin_field-IsCodec Function.reply_handshake_begin
            refl t m ht et).1

  reply_handshake_error_write-wire :
      (m : ReplyHandshakeError) (w : WSeq)
      → IsReplyHandshakeError m
      → length (reply_handshake_error_wire m) ≤ w.space
      → reply_handshake_error_write m w ≡ (
        record { err = FormatError.ok; written = reply_handshake_error_wire m },
        fill w (reply_handshake_error_wire m),
      )
  unfolding reply_handshake_error_write function_spec
  reply_handshake_error_write-wire m w h room =
      write_message-bytes reply_handshake_error_field-IsCodec Function.reply_handshake_error refl m
        w h room

  pub reply_handshake_error_read-wire :
      (m : ReplyHandshakeError)
      → IsReplyHandshakeError m
      → reply_handshake_error_read (reply_handshake_error_wire m) ≡ ok m
  unfolding reply_handshake_error_read function_spec
  reply_handshake_error_read-wire m h =
      read_message-bytes reply_handshake_error_field-IsCodec Function.reply_handshake_error refl m h

  -- A valid message that fits the view is written without an error, and the bytes written are read
  -- back as that message.
  pub reply_handshake_error_read-write :
      (m : ReplyHandshakeError) (w : WSeq)
      → IsReplyHandshakeError m
      → length (reply_handshake_error_wire m) ≤ w.space
      → ((reply_handshake_error_write m w).0.err ≡ FormatError.ok)
        × (reply_handshake_error_read (reply_handshake_error_write m w).0.written ≡ ok m)
  unfolding reply_handshake_error_read function_spec
  reply_handshake_error_read-write m w h room = rw (reply_handshake_error_write-wire m w h room) (
    refl,
    read_message-bytes reply_handshake_error_field-IsCodec Function.reply_handshake_error refl m h,
  )

  -- Two byte sequences that are read as the same message are equal.
  pub reply_handshake_error_read_unique :
      (m : ReplyHandshakeError) (s t : Bytes)
      → All IsByte s
      → All IsByte t
      → reply_handshake_error_read s ≡ ok m
      → reply_handshake_error_read t ≡ ok m
      → s ≡ t
  unfolding reply_handshake_error_read function_spec
  reply_handshake_error_read_unique m s t hs ht es et =
      (read_message_sound reply_handshake_error_field-IsCodec Function.reply_handshake_error refl s
        m hs es).1
      ∙ sym
          (read_message_sound reply_handshake_error_field-IsCodec Function.reply_handshake_error
            refl t m ht et).1

  pub session_data_write-wire :
      (m : SessionData) (w : WSeq)
      → IsSessionData m
      → length (session_data_wire m) ≤ w.space
      → session_data_write m w ≡ (
        record { err = FormatError.ok; written = session_data_wire m },
        fill w (session_data_wire m),
      )
  unfolding session_data_write function_spec
  session_data_write-wire m w h room =
      write_message-bytes session_data_field-IsCodec Function.session_data refl m w h room

  pub session_data_read-wire :
      (m : SessionData) → IsSessionData m → session_data_read (session_data_wire m) ≡ ok m
  unfolding session_data_read function_spec
  session_data_read-wire m h =
      read_message-bytes session_data_field-IsCodec Function.session_data refl m h

  -- A valid message that fits the view is written without an error, and the bytes written are read
  -- back as that message.
  pub session_data_read-write :
      (m : SessionData) (w : WSeq)
      → IsSessionData m
      → length (session_data_wire m) ≤ w.space
      → ((session_data_write m w).0.err ≡ FormatError.ok)
        × (session_data_read (session_data_write m w).0.written ≡ ok m)
  unfolding session_data_read function_spec
  session_data_read-write m w h room =
      rw (session_data_write-wire m w h room)
        (refl, read_message-bytes session_data_field-IsCodec Function.session_data refl m h)

  -- Two byte sequences that are read as the same message are equal.
  pub session_data_read_unique :
      (m : SessionData) (s t : Bytes)
      → All IsByte s
      → All IsByte t
      → session_data_read s ≡ ok m
      → session_data_read t ≡ ok m
      → s ≡ t
  unfolding session_data_read function_spec
  session_data_read_unique m s t hs ht es et =
      (read_message_sound session_data_field-IsCodec Function.session_data refl s m hs es).1
      ∙ sym (read_message_sound session_data_field-IsCodec Function.session_data refl t m ht et).1
