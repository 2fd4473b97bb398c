-- ===== src/Wire/Messages/Bodies.antt =====
-- The messages of the protocol (crypto/gen), and their `read` and `write`.
use ssp21_cpp.Ser.{WSeq}
use ssp21_cpp.Wire.{Parsed}
use ssp21_cpp.Wire.Enums.Handshake.{Function}
use ssp21_cpp.Wire.Messages.{read_message, write_message, FormatResult}
use ssp21_cpp.Wire.{Field, ◌&◌, struct}
use ssp21_cpp.Wire.Fields.{enum_field, seq_byte_field}
use ssp21_cpp.Ser.{Ser4cpp}
use ssp21_cpp.Base.{Bytes}
use ssp21_cpp.Wire.Enums.Handshake.{
  HandshakeMode, handshake_mode_spec, HandshakeError, handshake_error_spec,
}
use ssp21_cpp.Wire.Structs.Handshake.{
  Version, version_field, AuthMetadata, auth_metadata_field, SessionConstraints,
  session_constraints_field, CryptoSpec, crypto_spec_field,
}

pub record RequestHandshakeBegin : Type 0 where
  pub version : Version
  pub spec : CryptoSpec
  pub constraints : SessionConstraints
  pub handshake_mode : HandshakeMode
  pub mode_ephemeral : Bytes
  pub mode_data : Bytes

abbrev pub request_handshake_begin_fields :
    RequestHandshakeBegin
    → Version × (CryptoSpec × (SessionConstraints × (HandshakeMode × (Bytes × (Bytes)))))
request_handshake_begin_fields m =
    (m.version, (m.spec, (m.constraints, (m.handshake_mode, (m.mode_ephemeral, m.mode_data)))))

abbrev pub request_handshake_begin_make :
    Version × (CryptoSpec × (SessionConstraints × (HandshakeMode × (Bytes × (Bytes)))))
    → RequestHandshakeBegin
request_handshake_begin_make t = record {
  version = t.0;
  spec = t.1.0;
  constraints = t.1.1.0;
  handshake_mode = t.1.1.1.0;
  mode_ephemeral = t.1.1.1.1.0;
  mode_data = t.1.1.1.1.1;
}

pub record ReplyHandshakeBegin : Type 0 where
  pub version : Version
  pub mode_ephemeral : Bytes
  pub mode_data : Bytes

abbrev pub reply_handshake_begin_fields : ReplyHandshakeBegin → Version × (Bytes × (Bytes))
reply_handshake_begin_fields m = (m.version, (m.mode_ephemeral, m.mode_data))

abbrev pub reply_handshake_begin_make : Version × (Bytes × (Bytes)) → ReplyHandshakeBegin
reply_handshake_begin_make t = record { version = t.0; mode_ephemeral = t.1.0; mode_data = t.1.1 }

pub record ReplyHandshakeError : Type 0 where
  pub version : Version
  pub handshake_error : HandshakeError

abbrev pub reply_handshake_error_fields : ReplyHandshakeError → Version × (HandshakeError)
reply_handshake_error_fields m = (m.version, m.handshake_error)

abbrev pub reply_handshake_error_make : Version × (HandshakeError) → ReplyHandshakeError
reply_handshake_error_make t = record { version = t.0; handshake_error = t.1 }

pub record SessionData : Type 0 where
  pub metadata : AuthMetadata
  pub user_data : Bytes
  pub auth_tag : Bytes

abbrev pub session_data_fields : SessionData → AuthMetadata × (Bytes × (Bytes))
session_data_fields m = (m.metadata, (m.user_data, m.auth_tag))

abbrev pub session_data_make : AuthMetadata × (Bytes × (Bytes)) → SessionData
session_data_make t = record { metadata = t.0; user_data = t.1.0; auth_tag = t.1.1 }

module _ ⦃ser : Ser4cpp⦄ where
  unfoldable pub request_handshake_begin_field : Field RequestHandshakeBegin
  request_handshake_begin_field =
      struct request_handshake_begin_fields request_handshake_begin_make (
        version_field
        & crypto_spec_field
        & session_constraints_field
        & enum_field handshake_mode_spec
        & seq_byte_field
        & seq_byte_field)

  unfoldable pub reply_handshake_begin_field : Field ReplyHandshakeBegin
  reply_handshake_begin_field =
      struct reply_handshake_begin_fields reply_handshake_begin_make
        (version_field & seq_byte_field & seq_byte_field)

  unfoldable pub reply_handshake_error_field : Field ReplyHandshakeError
  reply_handshake_error_field =
      struct reply_handshake_error_fields reply_handshake_error_make
        (version_field & enum_field handshake_error_spec)

  unfoldable pub session_data_field : Field SessionData
  session_data_field =
      struct session_data_fields session_data_make
        (auth_metadata_field & seq_byte_field & seq_byte_field)

  unfoldable pub request_handshake_begin_read : Bytes → Parsed RequestHandshakeBegin
  request_handshake_begin_read =
      read_message Function.request_handshake_begin request_handshake_begin_field

  unfoldable pub request_handshake_begin_write : RequestHandshakeBegin → WSeq → FormatResult × WSeq
  request_handshake_begin_write =
      write_message Function.request_handshake_begin request_handshake_begin_field

  unfoldable pub reply_handshake_begin_read : Bytes → Parsed ReplyHandshakeBegin
  reply_handshake_begin_read =
      read_message Function.reply_handshake_begin reply_handshake_begin_field

  unfoldable pub reply_handshake_begin_write : ReplyHandshakeBegin → WSeq → FormatResult × WSeq
  reply_handshake_begin_write =
      write_message Function.reply_handshake_begin reply_handshake_begin_field

  unfoldable pub reply_handshake_error_read : Bytes → Parsed ReplyHandshakeError
  reply_handshake_error_read =
      read_message Function.reply_handshake_error reply_handshake_error_field

  unfoldable pub reply_handshake_error_write : ReplyHandshakeError → WSeq → FormatResult × WSeq
  reply_handshake_error_write =
      write_message Function.reply_handshake_error reply_handshake_error_field

  unfoldable pub session_data_read : Bytes → Parsed SessionData
  session_data_read = read_message Function.session_data session_data_field

  unfoldable pub session_data_write : SessionData → WSeq → FormatResult × WSeq
  session_data_write = write_message Function.session_data session_data_field
