-- ===== src/Link/Frame.antt =====
-- The frame of the link layer as bytes: what LinkFrameWriter.cpp writes and LinkParser.cpp accepts.
use ssp21_cpp.Base.{ℕ, ◌^◌, ◌<◌, Bytes, ◌∷◌, ◌++◌, length}
use ssp21_cpp.Ser.{be16, be32}
use ssp21_cpp.Crc.{calc}
use ssp21_cpp.Link.{Addresses, sync1, sync2}

-- The synchronization bytes, the addresses and the length of the payload.
abbrev pub fields_bytes : Addresses → ℕ → Bytes
fields_bytes a n = sync1 ∷ sync2 ∷ (be16 a.destination ++ (be16 a.source ++ be16 n))

abbrev pub header_bytes : Addresses → ℕ → Bytes
header_bytes a n = fields_bytes a n ++ be32 (calc (fields_bytes a n))

abbrev pub body_bytes : Bytes → Bytes
body_bytes payload = payload ++ be32 (calc payload)

unfoldable pub frame_bytes : Addresses → Bytes → Bytes
frame_bytes a payload = header_bytes a (length payload) ++ body_bytes payload

pub record IsAddresses (a : Addresses) : Type 0 where
  pub destination_u16 : a.destination < 2 ^ 16
  pub source_u16 : a.source < 2 ^ 16
