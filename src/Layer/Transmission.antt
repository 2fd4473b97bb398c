-- ===== src/Layer/Transmission.antt =====
-- The state of a transmission (cpp/libs/ssp21/src/crypto/TxState.h).
use ssp21_cpp.Base.{Bool, true, false, ◌&&◌, not, Bytes, [], ◌∷◌, if◌then◌else◌}

abbrev pub is_empty : Bytes → Bool
is_empty [] = true
is_empty (b ∷ bytes) = false

pub record TxState : Type 0 where
  pub transmitting : Bool
  pub remainder : Bytes

abbrev pub reset : TxState
reset = record { transmitting = false; remainder = [] }

abbrev pub initialize : Bytes → TxState
initialize data' = record { transmitting = false; remainder = data' }

abbrev pub is_idle : TxState → Bool
is_idle s = not s.transmitting && is_empty s.remainder

abbrev pub is_ready_tx : TxState → Bool
is_ready_tx s = not s.transmitting && not (is_empty s.remainder)

abbrev pub on_tx_complete : TxState → Bool × TxState
on_tx_complete s =
    if s.transmitting then (is_empty s.remainder, record s { transmitting = false }) else (false, s)

abbrev pub begin_transmit : Bytes → TxState → TxState
begin_transmit remainder s =
    if is_empty s.remainder then s else record { transmitting = true; remainder = remainder }
