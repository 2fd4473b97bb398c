-- ===== src/Wire/Enums/Laws.antt =====
-- Each enumeration reads back what it writes, and has one byte for each defined value.
use ssp21_cpp.Base.{arith}
use ssp21_cpp.Wire.Fields.Integers.{IsSpec}
use ssp21_cpp.Wire.Enums.Handshake.{
  function_spec, handshake_mode_spec, handshake_error_spec, public_key_type_spec,
  container_entry_type_spec,
}
use ssp21_cpp.Wire.Enums.Suite.{
  handshake_ephemeral_spec, handshake_hash_spec, handshake_kdf_spec, session_nonce_mode_spec,
  session_crypto_mode_spec,
}

pub function-IsSpec : IsSpec function_spec
unfolding function_spec
function-IsSpec = record {
  to_byte = λ e. ground arith;
  from-to = λ e. ground arith;
  to-from = λ b h d. ground arith;
}

pub handshake_ephemeral-IsSpec : IsSpec handshake_ephemeral_spec
unfolding handshake_ephemeral_spec
handshake_ephemeral-IsSpec = record {
  to_byte = λ e. ground arith;
  from-to = λ e. ground arith;
  to-from = λ b h d. ground arith;
}

pub handshake_hash-IsSpec : IsSpec handshake_hash_spec
unfolding handshake_hash_spec
handshake_hash-IsSpec = record {
  to_byte = λ e. ground arith;
  from-to = λ e. ground arith;
  to-from = λ b h d. ground arith;
}

pub handshake_kdf-IsSpec : IsSpec handshake_kdf_spec
unfolding handshake_kdf_spec
handshake_kdf-IsSpec = record {
  to_byte = λ e. ground arith;
  from-to = λ e. ground arith;
  to-from = λ b h d. ground arith;
}

pub session_nonce_mode-IsSpec : IsSpec session_nonce_mode_spec
unfolding session_nonce_mode_spec
session_nonce_mode-IsSpec = record {
  to_byte = λ e. ground arith;
  from-to = λ e. ground arith;
  to-from = λ b h d. ground arith;
}

pub session_crypto_mode-IsSpec : IsSpec session_crypto_mode_spec
unfolding session_crypto_mode_spec
session_crypto_mode-IsSpec = record {
  to_byte = λ e. ground arith;
  from-to = λ e. ground arith;
  to-from = λ b h d. ground arith;
}

pub handshake_mode-IsSpec : IsSpec handshake_mode_spec
unfolding handshake_mode_spec
handshake_mode-IsSpec = record {
  to_byte = λ e. ground arith;
  from-to = λ e. ground arith;
  to-from = λ b h d. ground arith;
}

pub handshake_error-IsSpec : IsSpec handshake_error_spec
unfolding handshake_error_spec
handshake_error-IsSpec = record {
  to_byte = λ e. ground arith;
  from-to = λ e. ground arith;
  to-from = λ b h d. ground arith;
}

pub public_key_type-IsSpec : IsSpec public_key_type_spec
unfolding public_key_type_spec
public_key_type-IsSpec = record {
  to_byte = λ e. ground arith;
  from-to = λ e. ground arith;
  to-from = λ b h d. ground arith;
}

pub container_entry_type-IsSpec : IsSpec container_entry_type_spec
unfolding container_entry_type_spec
container_entry_type-IsSpec = record {
  to_byte = λ e. ground arith;
  from-to = λ e. ground arith;
  to-from = λ b h d. ground arith;
}
