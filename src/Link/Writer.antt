-- ===== src/Link/Writer.antt =====
-- cpp/libs/ssp21/src/link/LinkFrameWriter.cpp. The views into the writer's buffer are the room that
-- they have and what was written into them, which `overwrite` puts in its place.
pub mod Frames
pub mod Contract
use ssp21_cpp.Base.{ℕ, ◌+◌, ◌-◌, Bytes, List, [], ◌∷◌, length, take, ltb, if◌then◌else◌}
use ssp21_cpp.Ser.{Ser4cpp, WSeq}
use ssp21_cpp.Wire.{Field, FormatError, ok, insufficient_space, ◌&◌}
use ssp21_cpp.Wire.Fields.{u8_field, u16_field, u32_field}
use ssp21_cpp.Wire.Messages.{FormatResult}
use ssp21_cpp.Session.Transmit.{IWritable, WriteResult}
use ssp21_cpp.Crc.{calc}
use ssp21_cpp.Link.{Addresses, sync1, sync2, header_fields_size, header_total_size, min_frame_size}
use ssp21_cpp.Link.Parser.{overwrite}

pub record LinkFrameWriter : Type 0 where
  pub addr : Addresses
  pub max_payload_size : ℕ
  pub frame_buffer : Bytes

-- `WriteResult::success`
abbrev pub success : FormatResult → Bytes → WriteResult
success res frame = record { err = res.err; written = res.written; frame = frame }

-- `WriteResult::error`
abbrev pub error : FormatError → WriteResult
error e = record { err = e; written = []; frame = [] }

abbrev pub as_wslice : Bytes → WSeq
as_wslice buffer = record { space = length buffer; written = [] }

-- What a write into the view that starts at `offset` leaves in the buffer.
abbrev pub store : Bytes → ℕ → WSeq → Bytes
store buffer offset dest = overwrite buffer offset dest.written

module _ ⦃ser : Ser4cpp⦄ where
  -- `BigEndian::write` on several values writes one after the other, as a chain of fields does.
  abbrev pub header_fields : Field (ℕ × (ℕ × (ℕ × (ℕ × ℕ))))
  header_fields = u8_field & (u8_field & (u16_field & (u16_field & u16_field)))

  abbrev pub header_values : Addresses → ℕ → ℕ × (ℕ × (ℕ × (ℕ × ℕ)))
  header_values addr payload_length =
      (sync1, (sync2, (addr.destination, (addr.source, payload_length))))

  -- The end of `write_body_and_crc`, behind the write of the CRC.
  abbrev end_body : Bytes → FormatResult → FormatError × WSeq → FormatResult × Bytes
  end_body buffer result (ok, dest) = (result, store buffer header_total_size dest)
  end_body buffer result (insufficient_space, dest) =
      (record { err = insufficient_space; written = [] }, store buffer header_total_size dest)

  abbrev write_body_crc : Bytes → FormatResult × WSeq → FormatResult × Bytes
  write_body_crc buffer (result, dest) = elim result.err [
    | ok ↦ end_body buffer result (u32_field.write (calc result.written) dest)
    | insufficient_space ↦ (result, store buffer header_total_size dest)
  ]

  pub write_body_and_crc : Bytes → IWritable → FormatResult × Bytes
  write_body_and_crc frame_buffer payload =
      write_body_crc frame_buffer
        (payload (record { space = length frame_buffer - header_total_size; written = [] }))

  abbrev end_header : Bytes → FormatResult → FormatError × WSeq → WriteResult × Bytes
  end_header buffer res (ok, dest) =
      let whole = store buffer 0 dest in
      (success res (take (length res.written + min_frame_size) whole), whole)
  end_header buffer res (insufficient_space, dest) = (error insufficient_space, store buffer 0 dest)

  abbrev write_header_crc : Bytes → FormatResult → FormatError × WSeq → WriteResult × Bytes
  write_header_crc buffer res (ok, dest) =
      let crc_h = calc (take header_fields_size (store buffer 0 dest)) in
      end_header buffer res (u32_field.write crc_h dest)
  write_header_crc buffer res (insufficient_space, dest) =
      (error insufficient_space, store buffer 0 dest)

  -- `write_impl` behind the body, which is written first.
  abbrev write_header : Addresses → FormatResult × Bytes → WriteResult × Bytes
  write_header addr (res, buffer) = elim res.err [
    | insufficient_space ↦ (error insufficient_space, buffer)
    | ok ↦
        if ltb 65535 (length res.written)
        then (error insufficient_space, buffer)
        else write_header_crc buffer res
            (header_fields.write (header_values addr (length res.written)) (as_wslice buffer))
  ]

  pub write_impl : LinkFrameWriter → IWritable → WriteResult × LinkFrameWriter
  unfolding write_body_and_crc
  write_impl writer payload =
      let r = write_header writer.addr (write_body_and_crc writer.frame_buffer payload) in
      (r.0, record writer { frame_buffer = r.1 })
