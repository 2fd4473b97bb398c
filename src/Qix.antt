-- ===== src/Qix.antt =====
-- The distribution of quantum keys (cpp/libs/qix): its frames, its parser and its store of keys.
pub mod KeyStore
pub mod Frames
mod Tests
use ssp21_cpp.Base.{ℕ, Bytes, Option, none, some, length, ◌==◌, if◌then◌else◌}
use ssp21_cpp.Session.{SecureBuffer, length_32}

-- QIXFrame.h
pub data Status : Type 0 where
  ok key_compromised undefined : Status

pub record QixFrame : Type 0 where
  pub key_id : ℕ
  pub key_data : Bytes
  pub status : Status

-- KeyRecord of cpp/libs/ssp21/src/crypto/KeyRecord.cpp; `none` is a null key.
pub record KeyRecord : Type 0 where
  pub id : ℕ
  pub key : Option SecureBuffer

abbrev pub create_key : Bytes → Option SecureBuffer
create_key key =
    if length key == 32 then some (record { length = length_32; buffer = key }) else none

abbrev pub make_record : ℕ → Bytes → KeyRecord
make_record id key = record { id = id; key = create_key key }
