-- ===== src/Qix/Frames.antt =====
-- cpp/libs/qix/src/QIXFrameParser.cpp and the frame of QIXFrameWriter.cpp; the serial port is left out.
pub mod RoundTrip
use ssp21_cpp.Base.{
  ℕ, suc, ◌+◌, ◌-◌, Bool, ◌&&◌, not, Bytes, [], ◌∷◌, ◌++◌, Option, none, some, length, take, drop,
  get_or, ltb, ◌==◌, if◌then◌else◌,
}
use ssp21_cpp.Ser.{Ser4cpp, WSeq}
use ssp21_cpp.Crc.{calc}
use ssp21_cpp.Link.Parser.{overwrite}
use ssp21_cpp.Qix.{QixFrame, Status}

abbrev pub sync1 : ℕ
sync1 = 0x5A

abbrev pub sync2 : ℕ
sync2 = 0xA5

-- id, key and status
abbrev pub crc_data_size : ℕ
crc_data_size = 41

abbrev pub total_frame_size : ℕ
total_frame_size = 47

pub record QixFrameParser : Type 0 where
  pub num_bytes_buffered : ℕ
  pub buffer : Bytes

-- A reader fills the buffer behind what is buffered, to its end.
abbrev pub fill_buffer : Bytes → QixFrameParser → QixFrameParser
fill_buffer bytes p = record p { buffer = overwrite p.buffer p.num_bytes_buffered bytes }

abbrev pub starts : ℕ → Bytes → Bool
starts value [] = value == sync1
starts value (next ∷ input) = (value == sync1) && (next == sync2)

-- The input behind what `find_sync` discards.
pub find_sync : Bytes → Bytes
find_sync [] = []
find_sync (value ∷ input) =
    let rest = find_sync input in if starts value input then value ∷ input else rest

abbrev pub get_status : ℕ → Status
get_status value =
    if value == 0x01
    then Status.ok
    else if value == 0xFF
    then Status.key_compromised
    else Status.undefined

-- What a failed read leaves of a variable is taken to be 0; the buffer is never too short for one.
abbrev pub or_zero : Option (ℕ × Bytes) → Bytes → ℕ × Bytes
or_zero none input = (0, input)
or_zero (some r) input = r

module _ ⦃ser : Ser4cpp⦄ where
  pub read_frame_fields : Bytes → QixFrame
  read_frame_fields buffer =
      let r = or_zero (ser.read_u64 (drop 2 buffer)) (drop 2 buffer) in
      record {
        key_id = r.0;
        key_data = take 32 r.1;
        status = get_status (get_or (drop 32 r.1) 0 0);
      }

  pub calc_frame_crc : Bytes → ℕ
  calc_frame_crc buffer = calc (take crc_data_size (drop 2 buffer))

  pub read_frame_crc : Bytes → ℕ
  read_frame_crc buffer = (or_zero (ser.read_u32 (drop 43 buffer)) (drop 43 buffer)).0

  -- The frame that is found, if one is, and the parser after it.
  pub parse : QixFrameParser → Option QixFrame × QixFrameParser
  unfolding find_sync read_frame_fields calc_frame_crc read_frame_crc
  parse p =
      let remainder = find_sync p.buffer in
      let none_buffered = record p { num_bytes_buffered = 0 } in
      if ltb (length remainder) total_frame_size
      then (
        none,
        record { num_bytes_buffered = length remainder; buffer = overwrite p.buffer 0 remainder },
      )
      else if not (calc_frame_crc p.buffer == read_frame_crc p.buffer)
      then (none, none_buffered)
      else (some (read_frame_fields p.buffer), none_buffered)

  -- A write whose result is not looked at.
  abbrev and_write : (WSeq → Option WSeq) → WSeq → WSeq
  and_write write dest = elim (write dest) [ none ↦ dest | some next ↦ next ]

  abbrev written_fields : QixFrame → WSeq
  written_fields frame =
      let start : WSeq = record { space = total_frame_size; written = [] } in
      let id_written =
        and_write (ser.write_u64 frame.key_id)
          (and_write (ser.write_u8 sync2) (and_write (ser.write_u8 sync1) start)) in
      and_write (ser.write_u8 0x01) (ser.copy_from frame.key_data id_written)

  -- `QIXFrameWriter::write`: the bytes for the port, or `none` where it throws.
  pub write : QixFrame → Option Bytes
  write frame =
      if not (length frame.key_data == 32)
      then none
      else let dest = written_fields frame in
        some (and_write (ser.write_u32 (calc (take 41 (drop 2 dest.written)))) dest).written
