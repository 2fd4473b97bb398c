-- ===== src/Link/RawWriter.antt =====
-- cpp/libs/ssp21/src/RawFrameWriter.cpp: a payload is its own frame, for lower layers that have
-- frames already.
use ssp21_cpp.Base.{ℕ, ◌+◌, ◌≤◌, ◌≡◌, ap, ◌∙◌, sym, Bytes, length, take, drop, take-append}
use mathlib.Core.Path.{subst}
use ssp21_cpp.Ser.{WSeq, fill}
use ssp21_cpp.Wire.{ok, insufficient_space}
use ssp21_cpp.Wire.Messages.{FormatResult}
use ssp21_cpp.Session.Transmit.{IWritable, WriteResult, FrameWriter}
use ssp21_cpp.Handshake.Peers.{IsFrameWriter}
use ssp21_cpp.Link.Writer.{success, error, as_wslice, store}

pub record RawFrameWriter : Type 0 where
  pub max_payload_size : ℕ
  pub frame_buffer : Bytes

abbrev written_frame : Bytes → FormatResult × WSeq → WriteResult × Bytes
written_frame buffer (res, dest) = elim res.err [
  | ok ↦ (success res (take (length res.written) (store buffer 0 dest)), store buffer 0 dest)
  | insufficient_space ↦ (error insufficient_space, store buffer 0 dest)
]

pub raw_write_impl : RawFrameWriter → IWritable → WriteResult × RawFrameWriter
raw_write_impl writer payload =
    let r = written_frame writer.frame_buffer (payload (as_wslice writer.frame_buffer)) in
    (r.0, record writer { frame_buffer = r.1 })

-- As an `IFrameWriter`.
abbrev raw_frame_writer : RawFrameWriter → FrameWriter
raw_frame_writer writer = record {
  write = λ payload. (raw_write_impl writer payload).0;
  max_payload_size = writer.max_payload_size;
}

-- The buffer has the maximum's length, and the frame is what the payload writes.
raw_write_impl-frame :
    (writer : RawFrameWriter) (payload : IWritable) (bytes : Bytes)
    → length writer.frame_buffer ≡ writer.max_payload_size
    → ((w : WSeq)
        → length bytes ≤ w.space
        → payload w ≡ (record { err = ok; written = bytes }, fill w bytes))
    → length bytes ≤ writer.max_payload_size
    → (raw_write_impl writer payload).0 ≡ record { err = ok; written = bytes; frame = bytes }
unfolding raw_write_impl
raw_write_impl-frame writer payload bytes sized writes room =
    let enough = subst (λ (n : ℕ). length bytes ≤ n) (sym sized) room in
    let wrote = writes (as_wslice writer.frame_buffer) enough in
    ap (λ (r : FormatResult × WSeq). (written_frame writer.frame_buffer r).0) wrote
    ∙ ap (λ (xs : Bytes). record { err = ok; written = bytes; frame = xs })
        (take-append bytes (drop (0 + length bytes) writer.frame_buffer))

raw_frame_writer-IsFrameWriter :
    (writer : RawFrameWriter)
    → length writer.frame_buffer ≡ writer.max_payload_size
    → IsFrameWriter (raw_frame_writer writer)
raw_frame_writer-IsFrameWriter writer sized payload bytes writes room =
    (bytes, raw_write_impl-frame writer payload bytes sized writes room)
