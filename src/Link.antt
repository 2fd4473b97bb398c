-- ===== src/Link.antt =====
-- The link layer (cpp/libs/ssp21/src/link): its constants, its addresses and its frame.
pub mod Frame
pub mod Parser
pub mod Writer
mod RawWriter
pub mod Layer
mod Tests
mod LayerTests
use ssp21_cpp.Base.{ℕ, ◌≡◌}

-- LinkConstants.h
abbrev pub sync1 : ℕ
sync1 = 0x07

abbrev pub sync2 : ℕ
sync2 = 0xAA

abbrev pub max_config_payload_size : ℕ
max_config_payload_size = 4092

abbrev pub crc_size : ℕ
crc_size = 4

abbrev pub header_fields_size : ℕ
header_fields_size = 8

abbrev pub header_total_size : ℕ
header_total_size = 12

abbrev pub min_frame_size : ℕ
min_frame_size = 16

-- Addresses.h
pub record Addresses : Type 0 where
  pub destination : ℕ
  pub source : ℕ
