-- ===== src/Layer.antt =====
-- What both ends of the cryptographic layer share (cpp/libs/ssp21/src/crypto/CryptoLayer.h and
-- TxState.h): its state, and its surroundings as an interface. The layer above may call back into
-- this one while it is called, so a call of it maps the whole state.
pub mod Transmission
pub mod Crypto
pub mod Initiator
pub mod Responder
mod Tests
use ssp21_cpp.Base.{ℕ, Bool, true, false, ◌&&◌, not, Bytes, [], ◌∷◌, if◌then◌else◌}
use ssp21_cpp.Layer.Transmission.{TxState}
use ssp21_cpp.Session.State.{Sessions, Session}
use ssp21_cpp.Session.Transmit.{FrameWriter}

-- The lower layer, over its own state.
pub record ILowerLayer (L : Type 0) : Type 0 where
  pub is_tx_ready : L → Bool
  pub start_tx_from_upper : Bytes → L → Bool × L
  pub start_rx_from_upper : L → Bytes × L

-- The calls of the upper layer.
pub data Call : Type 0 where
  on_lower_open on_lower_close on_lower_tx_ready on_lower_rx_ready : Call

-- The layer, with the members of the derived class and the state of the lower layer. `is_open_flag`
-- and `upper_is_open` are the flags of IUpperLayer.h of this layer and of the one above, `processing`
-- is `upper_is_processing_rx_data` of ILowerLayer.h. `payload_size` is the length of
-- `payload_buffer`.
pub record CryptoLayer (D L : Type 0) : Type 0 where
  pub is_open_flag : Bool
  pub upper_is_open : Bool
  pub processing : Bool
  pub sessions : Sessions
  pub tx_state : TxState
  pub payload_data : Bytes
  pub payload_size : ℕ
  pub derived : D
  pub lower : L

-- `upper` is what a call of the upper layer makes of it all; it stands for any sequence of calls.
pub record Surroundings (D L : Type 0) : Type 0 where
  pub frame_writer : FrameWriter
  pub lower : ILowerLayer L
  pub upper : Call → CryptoLayer D L → CryptoLayer D L

-- Both sessions count in the same statistics, those of `active`.
abbrev pub pending_of : Sessions → Session
pending_of s = record s.pending { statistics = s.active.statistics }

abbrev pub set_pending : Sessions → Session → Sessions
set_pending s next = record {
  active = record s.active { statistics = next.statistics };
  pending = next;
}

abbrev pub set_active : Sessions → Session → Sessions
set_active s next = record s { active = next }

-- The calls of the upper layer, which its own flag guards (IUpperLayer.h).
module _ {D L : Type 0} (env : Surroundings D L) where
  abbrev pub call_open : CryptoLayer D L → CryptoLayer D L
  call_open c =
      if c.upper_is_open then c else env.upper on_lower_open (record c { upper_is_open = true })

  abbrev pub call_close : CryptoLayer D L → CryptoLayer D L
  call_close c =
      if c.upper_is_open then env.upper on_lower_close (record c { upper_is_open = false }) else c

  abbrev pub call_tx_ready : CryptoLayer D L → CryptoLayer D L
  call_tx_ready c = if c.upper_is_open then env.upper on_lower_tx_ready c else c

  abbrev pub call_rx_ready : CryptoLayer D L → CryptoLayer D L
  call_rx_ready c = if c.upper_is_open then env.upper on_lower_rx_ready c else c

  -- `lower->start_tx_from_upper(frame)`
  abbrev pub start_tx : Bytes → CryptoLayer D L → Bool × CryptoLayer D L
  start_tx frame c =
      let r = env.lower.start_tx_from_upper frame c.lower in (r.0, record c { lower = r.1 })
