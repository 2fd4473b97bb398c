-- ===== src/Wire/Enums.antt =====
-- The enumerations of the protocol, which crypto/gen declares with their byte values.
pub mod Handshake
pub mod Suite
pub mod Laws
