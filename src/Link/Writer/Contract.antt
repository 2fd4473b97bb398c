-- ===== src/Link/Writer/Contract.antt =====
-- The link layer's frame writer keeps the contract of a frame writer, whatever its buffer holds.
use ssp21_cpp.Base.{◌+◌, ◌≤◌, ◌≡◌, Bytes, [], length, arith}
use ssp21_cpp.Ser.{Ser4cpp, WSeq, fill}
use ssp21_cpp.Wire.{ok}
use ssp21_cpp.Session.Transmit.{IWritable, FrameWriter}
use ssp21_cpp.Handshake.Peers.{IsFrameWriter}
use ssp21_cpp.Link.Frame.{frame_bytes}
use ssp21_cpp.Link.Writer.{LinkFrameWriter, write_impl}
use ssp21_cpp.Link.Writer.Frames.{IsWriter, write_impl-frame_bytes}

module _ ⦃ser : Ser4cpp⦄ where
  -- As an `IFrameWriter`. What a write leaves in the buffer does not show in a later one.
  abbrev pub link_frame_writer : LinkFrameWriter → FrameWriter
  link_frame_writer writer = record {
    write = λ payload. (write_impl writer payload).0;
    max_payload_size = writer.max_payload_size;
  }

  pub link_frame_writer-frame_bytes :
      (writer : LinkFrameWriter) (payload : IWritable) (bytes : Bytes)
      → IsWriter writer
      → ((w : WSeq)
          → length bytes ≤ w.space
          → payload w ≡ (record { err = ok; written = bytes }, fill w bytes))
      → length bytes ≤ writer.max_payload_size
      → (write_impl writer payload).0
        ≡ record { err = ok; written = bytes; frame = frame_bytes writer.addr bytes }
  link_frame_writer-frame_bytes writer payload bytes V writes room =
      let more : length bytes ≤ 4 + writer.max_payload_size = omega (arith, room) in
      (write_impl-frame_bytes writer payload bytes V more
          (writes (record { space = 4 + writer.max_payload_size; written = [] }) more)).0
        room

  pub link_frame_writer-IsFrameWriter :
      (writer : LinkFrameWriter) → IsWriter writer → IsFrameWriter (link_frame_writer writer)
  link_frame_writer-IsFrameWriter writer V payload bytes writes room = (
    frame_bytes writer.addr bytes,
    link_frame_writer-frame_bytes writer payload bytes V writes room,
  )
