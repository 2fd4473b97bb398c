-- ===== src/Session/State.antt =====
-- The state of a session: Session.h, with `initialize` and `reset` of Session.cpp, and the pair of
-- sessions of Sessions.cpp.
pub mod Lifecycle
pub mod Closed
use ssp21_cpp.Base.{ℕ, ◌*◌, ◌<◌, Bool, true, false, ◌-◌, ltb, if◌then◌else◌, not}
use ssp21_cpp.Session.{SessionKeys, SessionStatistics, increment, valid_keys, zero_keys}
use ssp21_cpp.Session.Mode.{SessionMode}

-- The steady clock of exe4cpp: times and durations are counted in ticks.
pub record Exe4cpp : Type 0 where
  pub ticks_per_ms : ℕ
  pub positive : 0 < ticks_per_ms

abbrev pub milliseconds : ⦃exe : Exe4cpp⦄ → ℕ → ℕ
milliseconds ⦃exe⦄ n = n * exe.ticks_per_ms

-- `Algorithms::Session`
pub record Algorithms : Type 0 where
  pub verify_nonce : ℕ → ℕ → Bool
  pub session_mode : SessionMode

-- `Session::Param`
pub record Param : Type 0 where
  pub session_start : ℕ
  pub max_nonce : ℕ
  pub max_session_time : ℕ

-- `Session`; the statistics are those that both sessions of a layer share, and `encrypt_buffer`
-- is the length of that buffer.
pub record Session : Type 0 where
  pub valid : Bool
  pub statistics : SessionStatistics
  pub ttl_pad_ms : ℕ
  pub rx_nonce : ℕ
  pub tx_nonce : ℕ
  pub keys : SessionKeys
  pub algorithms : Algorithms
  pub parameters : Param
  pub encrypt_buffer : ℕ

-- `SessionData::min_size_bytes`
abbrev pub session_data_min_size_bytes : ℕ
session_data_min_size_bytes = 9

abbrev pub calc_max_crypto_payload_length : ℕ → ℕ
calc_max_crypto_payload_length max_link_payload_size =
    if ltb session_data_min_size_bytes max_link_payload_size
    then max_link_payload_size - session_data_min_size_bytes
    else 0

unfoldable pub initialize : Algorithms → Param → SessionKeys → Session → Bool × Session
initialize algorithms parameters keys s = if not (valid_keys keys) then (false, s) else (
  true,
  record s {
    valid = true;
    rx_nonce = 0;
    tx_nonce = 0;
    algorithms = algorithms;
    parameters = parameters;
    keys = keys;
    statistics = record s.statistics { num_init = increment s.statistics.num_init };
  },
)

unfoldable pub reset : Session → Session
reset s = record s { valid = false; keys = zero_keys s.keys }

-- Sessions.h; both sessions keep their statistics in one object, that of `active`.
pub record Sessions : Type 0 where
  pub active : Session
  pub pending : Session

unfoldable pub reset_both : Sessions → Sessions
unfolding reset
reset_both s = record { active = reset s.active; pending = reset s.pending }

unfoldable pub activate_pending : Sessions → Sessions
unfolding reset
activate_pending s = record { active = s.pending; pending = reset s.active }
