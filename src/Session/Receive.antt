-- ===== src/Session/Receive.antt =====
-- How a session receives: the three `validate` functions of Session.cpp. Each gives the payload or
-- the error, and the session after it.
pub mod Checks
pub mod Replay
use ssp21_cpp.Base.{ℕ, ◌-◌, Bool, not, Bytes, [], ◌∷◌, ltb, if◌then◌else◌}
use ssp21_cpp.Ser.{Ser4cpp}
use ssp21_cpp.Wire.Messages.Bodies.{SessionData}
use ssp21_cpp.Session.{
  Checked, pass, fail, crypto, CryptoError, no_valid_session, clock_rollback,
  max_session_time_exceeded, expired_ttl, max_nonce_exceeded, nonce_replay, empty_user_data,
  increment, SessionStatistics, equal_to_zero,
}
use ssp21_cpp.Session.Mode.{read}
use ssp21_cpp.Session.State.{Exe4cpp, milliseconds, Session}

abbrev pub Validated : Type 0
Validated = Checked Bytes × Session

abbrev refuse : CryptoError → Session → Validated
refuse e s = (fail (crypto e), s)

abbrev pub count_without_session : Session → Session
count_without_session s = record s {
  statistics = record s.statistics {
    num_user_data_without_session = increment s.statistics.num_user_data_without_session;
  };
}

abbrev pub count_auth_fail : Session → Session
count_auth_fail s = record s {
  statistics = record s.statistics { num_auth_fail = increment s.statistics.num_auth_fail };
}

abbrev pub count_ttl_expiration : Session → Session
count_ttl_expiration s = record s {
  statistics = record s.statistics {
    num_ttl_expiration = increment s.statistics.num_ttl_expiration;
  };
}

abbrev pub count_nonce_fail : Session → Session
count_nonce_fail s = record s {
  statistics = record s.statistics { num_nonce_fail = increment s.statistics.num_nonce_fail };
}

abbrev pub count_success : Session → Session
count_success s = record s {
  statistics = record s.statistics { num_success = increment s.statistics.num_success };
}

module _ ⦃exe : Exe4cpp⦄ where
  -- The checks of an authentic message.
  unfoldable pub check_authentic : (ℕ → ℕ → Bool) → SessionData → ℕ → Bytes → Session → Validated
  check_authentic verify_nonce message now payload s =
      let current_session_time = now - s.parameters.session_start in
      let nonce = message.metadata.nonce in
      if ltb now s.parameters.session_start
      then refuse clock_rollback s
      else if ltb s.parameters.max_session_time current_session_time
      then refuse max_session_time_exceeded s
      else if ltb (milliseconds message.metadata.valid_until_ms) current_session_time
      then refuse expired_ttl (count_ttl_expiration s)
      else if ltb s.parameters.max_nonce nonce
      then refuse max_nonce_exceeded (count_nonce_fail s)
      else if not (verify_nonce s.rx_nonce nonce)
      then refuse nonce_replay (count_nonce_fail s)
      else (pass payload, count_success (record s { rx_nonce = nonce }))

  unfoldable pub check_payload :
      (ℕ → ℕ → Bool) → SessionData → ℕ → Checked Bytes → Session → Validated
  check_payload verify_nonce message now (pass payload) s =
      check_authentic verify_nonce message now payload s
  check_payload verify_nonce message now (fail ec) s = (fail ec, count_auth_fail s)

module _ ⦃ser : Ser4cpp⦄ ⦃exe : Exe4cpp⦄ where
  unfoldable pub validate_session_data_with_nonce_func :
      SessionData → ℕ → ℕ → (ℕ → ℕ → Bool) → Session → Validated
  validate_session_data_with_nonce_func message now dest verify_nonce s =
      if not s.valid
      then refuse no_valid_session (count_without_session s)
      else check_payload verify_nonce message now
          (read s.algorithms.session_mode s.keys.rx_key message dest) s

  unfoldable pub validate_session_auth : SessionData → ℕ → ℕ → Session → Validated
  validate_session_auth message now dest s =
      validate_session_data_with_nonce_func message now dest equal_to_zero s

  -- An empty payload is an error, found after the session has taken the nonce.
  unfoldable pub refuse_empty : Validated → Validated
  refuse_empty (pass [], s) = refuse empty_user_data (count_auth_fail s)
  refuse_empty (pass (b ∷ payload), s) = (pass (b ∷ payload), s)
  refuse_empty (fail ec, s) = (fail ec, s)

  unfoldable pub validate_session_data : SessionData → ℕ → ℕ → Session → Validated
  validate_session_data message now dest s =
      refuse_empty
        (validate_session_data_with_nonce_func message now dest s.algorithms.verify_nonce s)
