-- ===== src/Link/Writer/Frames.antt =====
-- What the link layer's frame writer puts into its buffer is the frame of its payload.
use ssp21_cpp.Base.{
  ℕ, ◌+◌, ◌-◌, ◌^◌, ◌≤◌, ◌<◌, ◌≡◌, refl, sym, ap, ◌∙◌, Bytes, [], ◌++◌, append_assoc, arith, length,
  length-append, length-take, take, drop, take-append, drop-append, le→ltb, lt→ltb,
}
use mathlib.Core.Path.{subst}
use native.Mathlib.Decide.{dec_le}
use ssp21_cpp.Ser.{Ser4cpp, WSeq, fill, be8, be16, be32}
use ssp21_cpp.Wire.{ok, insufficient_space}
use ssp21_cpp.Wire.Codec.{pair-IsCodec, IsCodec}
use ssp21_cpp.Wire.Fields.Integers.{IsU, u8_field-IsCodec, u16_field-IsCodec, u32_field-IsCodec}
use ssp21_cpp.Wire.Fields.{u32_field, integer_field}
use ssp21_cpp.Session.Transmit.{IWritable, WriteResult}
use ssp21_cpp.Crc.{calc, calc-lt}
use ssp21_cpp.Link.{Addresses}
use ssp21_cpp.Link.Frame.{fields_bytes, header_bytes, body_bytes, frame_bytes, IsAddresses}
use ssp21_cpp.Link.Parser.{overwrite}
use ssp21_cpp.Link.Parser.Buffer.{take-overwrite, length-overwrite}
use ssp21_cpp.Link.Writer.{
  LinkFrameWriter, success, error, as_wslice, header_fields, header_values, write_body_and_crc,
  write_header, write_impl,
}

-- The payload writes these bytes into a view with that room.
abbrev pub Writes : IWritable → Bytes → ℕ → Type 0
Writes payload xs room =
    payload (record { space = room; written = [] })
    ≡ (record { err = ok; written = xs }, record { space = room - length xs; written = xs })

pub record IsWriter (writer : LinkFrameWriter) : Type 0 where
  pub sized : length writer.frame_buffer ≡ 16 + writer.max_payload_size
  pub max_u16 : writer.max_payload_size < 2 ^ 16
  pub addresses : IsAddresses writer.addr

drop_same : (n : ℕ) (xs ys : Bytes) → length xs ≡ n → drop n (xs ++ ys) ≡ ys
drop_same n xs ys e = ap (λ (k : ℕ). drop k (xs ++ ys)) (sym e) ∙ drop-append xs ys

take_same : (n : ℕ) (xs ys : Bytes) → length xs ≡ n → take n (xs ++ ys) ≡ xs
take_same n xs ys e = ap (λ (k : ℕ). take k (xs ++ ys)) (sym e) ∙ take-append xs ys

-- A header in front of the body that is in the buffer.
framed :
    (buffer header body : Bytes)
    → length header ≡ 12
    → 12 + length body ≤ length buffer
    → take (length body + 12) (overwrite (overwrite buffer 12 body) 0 header) ≡ header ++ body
framed buffer header body size room =
    let tail = drop (12 + length body) buffer in
    let behind : drop (0 + length header) (overwrite buffer 12 body) ≡ body ++ tail =
      drop_same (0 + length header) (take 12 buffer) (body ++ tail)
        (omega (arith, length-take 12 buffer, size, room)) in
    ap (λ (xs : Bytes). take (length body + 12) (header ++ xs)) behind
    ∙ ap (take (length body + 12)) (sym (append_assoc header body tail))
    ∙ take_same (length body + 12) (header ++ body) tail
        (omega (arith, length-append header body, size))

length-body : (xs : Bytes) → length (body_bytes xs) ≡ length xs + 4
length-body xs = omega (arith, length-append xs (be32 (calc xs)))

module _ ⦃ser : Ser4cpp⦄ where
  abbrev header_encode : ℕ × (ℕ × (ℕ × (ℕ × ℕ))) → Bytes
  header_encode t = be8 t.0 ++ (be8 t.1.0 ++ (be16 t.1.1.0 ++ (be16 t.1.1.1.0 ++ be16 t.1.1.1.1)))

  header_fields-IsCodec :
      IsCodec header_fields
        (λ t. IsU 8 t.0 × (IsU 8 t.1.0 × (IsU 16 t.1.1.0 × (IsU 16 t.1.1.1.0 × IsU 16 t.1.1.1.1))))
        header_encode
  header_fields-IsCodec = pair-IsCodec u8_field-IsCodec (
      pair-IsCodec u8_field-IsCodec
        (pair-IsCodec u16_field-IsCodec (pair-IsCodec u16_field-IsCodec u16_field-IsCodec)))

  body_written :
      (buffer : Bytes) (payload : IWritable) (xs : Bytes)
      → Writes payload xs (length buffer - 12)
      → length xs + 16 ≤ length buffer
      → write_body_and_crc buffer payload
        ≡ (record { err = ok; written = xs }, overwrite buffer 12 (body_bytes xs))
  unfolding write_body_and_crc
  body_written buffer payload xs W room = rw (
    W,
    u32_field-IsCodec.fits (calc xs)
        (record { space = length buffer - 12 - length xs; written = xs }) (calc-lt xs)
        (omega (arith, room)),
  )

  -- A CRC that has no room leaves the view as it was.
  crc_refused : (v : ℕ) (w : WSeq) → w.space < 4 → u32_field.write v w ≡ (insufficient_space, w)
  unfolding u32_field integer_field
  crc_refused v w h = rw (ser.write_u32_lem v w, lt→ltb w.space 4 h)

  body_refused :
      (buffer : Bytes) (payload : IWritable) (xs : Bytes)
      → Writes payload xs (length buffer - 12)
      → length buffer < length xs + 16
      → write_body_and_crc buffer payload
        ≡ (record { err = insufficient_space; written = [] }, overwrite buffer 12 xs)
  unfolding write_body_and_crc
  body_refused buffer payload xs W full = rw (
    W,
    crc_refused (calc xs) (record { space = length buffer - 12 - length xs; written = xs })
        (omega (arith, full)),
  )

  header_written :
      (buffer : Bytes) (a : Addresses) (xs : Bytes)
      → IsAddresses a
      → length xs < 2 ^ 16
      → 12 ≤ length buffer
      → write_header a (record { err = ok; written = xs }, buffer) ≡ (
        success
            (record { err = ok; written = xs })
            (take (length xs + 16) (overwrite buffer 0 (header_bytes a (length xs)))),
        overwrite buffer 0 (header_bytes a (length xs)),
      )
  header_written buffer a xs A small room =
      let n = length xs in
      let fields = fields_bytes a n in
      let view = as_wslice buffer in
      let crc : take 8 (overwrite buffer 0 fields) ≡ fields =
        take-overwrite buffer 0 fields (omega arith) in
      rw (
        le→ltb 65535 n (omega (arith, small)),
        header_fields-IsCodec.fits (header_values a n) view
            (omega arith, (omega arith, (A.destination_u16, (A.source_u16, small))))
            (omega (arith, room)),
        crc,
        u32_field-IsCodec.fits (calc fields) (fill view fields) (calc-lt fields)
            (omega (arith, room)),
      )

  fits :
      (writer : LinkFrameWriter) (payload : IWritable) (xs : Bytes)
      → IsWriter writer
      → Writes payload xs (4 + writer.max_payload_size)
      → length xs ≤ writer.max_payload_size
      → write_impl writer payload ≡ (
        record { err = ok; written = xs; frame = frame_bytes writer.addr xs },
        record writer {
          frame_buffer =
              overwrite
                (overwrite writer.frame_buffer 12 (body_bytes xs))
                0
                (header_bytes writer.addr (length xs));
        },
      )
  unfolding write_impl frame_bytes
  fits writer payload xs V W le =
      let buffer = writer.frame_buffer in
      let size = length-body xs in
      let space : 4 + writer.max_payload_size ≡ length buffer - 12 = omega (arith, V.sized) in
      let W2 : Writes payload xs (length buffer - 12) = subst (Writes payload xs) space W in
      let body = body_written buffer payload xs W2 (omega (arith, V.sized, le)) in
      let kept = length-overwrite buffer 12 (body_bytes xs) (omega (arith, size, V.sized, le)) in
      let header =
        header_written (overwrite buffer 12 (body_bytes xs)) writer.addr xs V.addresses
          (omega (arith, V.max_u16, le)) (omega (arith, kept, V.sized)) in
      let whole =
        framed buffer (header_bytes writer.addr (length xs)) (body_bytes xs) refl
          (omega (arith, size, V.sized, le)) in
      let same : length xs + 16 ≡ length (body_bytes xs) + 12 = omega (arith, size) in
      rw (body, header, same, whole)

  refused :
      (writer : LinkFrameWriter) (payload : IWritable) (xs : Bytes)
      → IsWriter writer
      → Writes payload xs (4 + writer.max_payload_size)
      → writer.max_payload_size < length xs
      → write_impl writer payload ≡ (
        error insufficient_space,
        record writer { frame_buffer = overwrite writer.frame_buffer 12 xs },
      )
  unfolding write_impl
  refused writer payload xs V W long =
      let buffer = writer.frame_buffer in
      let space : 4 + writer.max_payload_size ≡ length buffer - 12 = omega (arith, V.sized) in
      let W2 : Writes payload xs (length buffer - 12) = subst (Writes payload xs) space W in
      rw (body_refused buffer payload xs W2 (omega (arith, V.sized, long)))

  -- `write_impl` of a writer in order, on a payload that writes its bytes into the room that the
  -- buffer has for it. A payload of at most the writer's maximum is put out, without an error, as
  -- the frame of the writer's addresses and the payload; a longer one is the error
  -- `insufficient_space`. Either way the writer stays in order.
  pub write_impl-frame_bytes :
      (writer : LinkFrameWriter) (payload : IWritable) (xs : Bytes)
      → IsWriter writer
      → length xs ≤ 4 + writer.max_payload_size
      → Writes payload xs (4 + writer.max_payload_size)
      → (length xs ≤ writer.max_payload_size
          → (write_impl writer payload).0
            ≡ record { err = ok; written = xs; frame = frame_bytes writer.addr xs })
        × (writer.max_payload_size < length xs
            → (write_impl writer payload).0 ≡ error insufficient_space)
        × IsWriter (write_impl writer payload).1
  write_impl-frame_bytes writer payload xs V room W = (
    λ le. ap first (fits writer payload xs V W le),
    λ long. ap first (refused writer payload xs V W long),
    elim (dec_le (length xs) writer.max_payload_size) [
      | yes le ↦
          let size = length-body xs in
          let kept =
            length-overwrite writer.frame_buffer 12 (body_bytes xs)
              (omega (arith, size, V.sized, le)) in
          let header = header_bytes writer.addr (length xs) in
          let kept2 =
            length-overwrite (overwrite writer.frame_buffer 12 (body_bytes xs)) 0 header
              (omega (arith, kept, V.sized)) in
          rw (fits writer payload xs V W le)
            record { sized = kept2 ∙ kept ∙ V.sized; max_u16 = V.max_u16; addresses = V.addresses }
      | no other ↦
          let kept = length-overwrite writer.frame_buffer 12 xs (omega (arith, V.sized, room)) in
          rw (refused writer payload xs V W (omega (arith, other)))
            record { sized = kept ∙ V.sized; max_u16 = V.max_u16; addresses = V.addresses }
    ],
  )
    where
      first : WriteResult × LinkFrameWriter → WriteResult
      first r = r.0
