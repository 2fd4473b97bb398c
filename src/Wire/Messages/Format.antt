-- ===== src/Wire/Messages/Format.antt =====
-- The wire format of the messages, without their function byte.
use ssp21_cpp.Base.{◌≡◌, refl, false, Bytes, [], ◌∷◌, ◌++◌}
use ssp21_cpp.Ser.{Ser4cpp}
use ssp21_cpp.Wire.Codec.{IsCodec, pair-IsCodec, struct-IsCodec}
use ssp21_cpp.Wire.Fields.Integers.{enum_field-IsCodec}
use ssp21_cpp.Wire.Fields.ByteSeq.{IsSeq, seq_bytes, seq_byte_field-IsCodec}
use ssp21_cpp.Wire.Enums.Laws.{handshake_mode-IsSpec, handshake_error-IsSpec}
use ssp21_cpp.Wire.Enums.Handshake.{handshake_mode_spec, handshake_error_spec}
use ssp21_cpp.Wire.Messages.Bodies.{
  RequestHandshakeBegin, request_handshake_begin_fields, request_handshake_begin_make,
  request_handshake_begin_field, ReplyHandshakeBegin, reply_handshake_begin_fields,
  reply_handshake_begin_make, reply_handshake_begin_field, ReplyHandshakeError,
  reply_handshake_error_fields, reply_handshake_error_make, reply_handshake_error_field,
  SessionData, session_data_fields, session_data_make, session_data_field,
}
use ssp21_cpp.Wire.Structs.HandshakeFormat.{
  IsVersion, version_bytes, version_field-IsCodec, IsAuthMetadata, auth_metadata_bytes,
  auth_metadata_field-IsCodec, IsSessionConstraints, session_constraints_bytes,
  session_constraints_field-IsCodec, IsCryptoSpec, crypto_spec_bytes, crypto_spec_field-IsCodec,
}

abbrev pub IsRequestHandshakeBegin : RequestHandshakeBegin → Type 0
IsRequestHandshakeBegin m =
    IsVersion m.version
    × (IsCryptoSpec m.spec
        × (IsSessionConstraints m.constraints
            × ((handshake_mode_spec.is_undefined m.handshake_mode ≡ false)
                × (IsSeq m.mode_ephemeral × (IsSeq m.mode_data)))))

abbrev pub request_handshake_begin_bytes : RequestHandshakeBegin → Bytes
request_handshake_begin_bytes m =
    version_bytes m.version
    ++ (crypto_spec_bytes m.spec
        ++ (session_constraints_bytes m.constraints
            ++ ((handshake_mode_spec.to_type m.handshake_mode ∷ [])
                ++ (seq_bytes m.mode_ephemeral ++ (seq_bytes m.mode_data)))))

abbrev pub IsReplyHandshakeBegin : ReplyHandshakeBegin → Type 0
IsReplyHandshakeBegin m = IsVersion m.version × (IsSeq m.mode_ephemeral × (IsSeq m.mode_data))

abbrev pub reply_handshake_begin_bytes : ReplyHandshakeBegin → Bytes
reply_handshake_begin_bytes m =
    version_bytes m.version ++ (seq_bytes m.mode_ephemeral ++ (seq_bytes m.mode_data))

abbrev pub IsReplyHandshakeError : ReplyHandshakeError → Type 0
IsReplyHandshakeError m =
    IsVersion m.version × ((handshake_error_spec.is_undefined m.handshake_error ≡ false))

abbrev pub reply_handshake_error_bytes : ReplyHandshakeError → Bytes
reply_handshake_error_bytes m =
    version_bytes m.version ++ ((handshake_error_spec.to_type m.handshake_error ∷ []))

abbrev pub IsSessionData : SessionData → Type 0
IsSessionData m = IsAuthMetadata m.metadata × (IsSeq m.user_data × (IsSeq m.auth_tag))

abbrev pub session_data_bytes : SessionData → Bytes
session_data_bytes m =
    auth_metadata_bytes m.metadata ++ (seq_bytes m.user_data ++ (seq_bytes m.auth_tag))

module _ ⦃ser : Ser4cpp⦄ where
  pub request_handshake_begin_field-IsCodec :
      IsCodec request_handshake_begin_field IsRequestHandshakeBegin request_handshake_begin_bytes
  unfolding request_handshake_begin_field
  request_handshake_begin_field-IsCodec =
      struct-IsCodec
        (pair-IsCodec (version_field-IsCodec) (
          pair-IsCodec (crypto_spec_field-IsCodec) (
            pair-IsCodec (session_constraints_field-IsCodec) (
              pair-IsCodec (enum_field-IsCodec handshake_mode-IsSpec)
                (pair-IsCodec (seq_byte_field-IsCodec) (seq_byte_field-IsCodec))))))
        request_handshake_begin_fields request_handshake_begin_make (λ m. refl) (λ t. refl)

  pub reply_handshake_begin_field-IsCodec :
      IsCodec reply_handshake_begin_field IsReplyHandshakeBegin reply_handshake_begin_bytes
  unfolding reply_handshake_begin_field
  reply_handshake_begin_field-IsCodec =
      struct-IsCodec
        (pair-IsCodec (version_field-IsCodec)
          (pair-IsCodec (seq_byte_field-IsCodec) (seq_byte_field-IsCodec)))
        reply_handshake_begin_fields reply_handshake_begin_make (λ m. refl) (λ t. refl)

  pub reply_handshake_error_field-IsCodec :
      IsCodec reply_handshake_error_field IsReplyHandshakeError reply_handshake_error_bytes
  unfolding reply_handshake_error_field
  reply_handshake_error_field-IsCodec =
      struct-IsCodec
        (pair-IsCodec (version_field-IsCodec) (enum_field-IsCodec handshake_error-IsSpec))
        reply_handshake_error_fields reply_handshake_error_make (λ m. refl) (λ t. refl)

  pub session_data_field-IsCodec : IsCodec session_data_field IsSessionData session_data_bytes
  unfolding session_data_field
  session_data_field-IsCodec =
      struct-IsCodec
        (pair-IsCodec (auth_metadata_field-IsCodec)
          (pair-IsCodec (seq_byte_field-IsCodec) (seq_byte_field-IsCodec)))
        session_data_fields session_data_make (λ m. refl) (λ t. refl)
