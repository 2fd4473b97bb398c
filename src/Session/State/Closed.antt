-- ===== src/Session/State/Closed.antt =====
-- A session between its reset and its next start.
use ssp21_cpp.Base.{
  ℕ, ◌≡◌, ◌⊎◌, inl, inr, refl, Bool, true, false, if◌then◌else◌, ◌==◌, not, Bytes, List, [], ◌∷◌,
  All, leb,
}
use ssp21_cpp.Ser.{Ser4cpp}
use ssp21_cpp.Wire.Messages.Bodies.{SessionData}
use ssp21_cpp.Session.{Checked, fail, crypto, no_valid_session, max_nonce_exceeded, zero_buffer}
use ssp21_cpp.Session.State.{Exe4cpp, Session, reset}
use ssp21_cpp.Session.State.Lifecycle.{IsClosed}
use ssp21_cpp.Session.Receive.{
  Validated, count_without_session, validate_session_data, validate_session_data_with_nonce_func,
  validate_session_auth, refuse_empty,
}
use ssp21_cpp.Session.Transmit.{
  FrameWriter, Formatted, format_session_data, format_session_auth,
  format_session_data_no_nonce_check,
}

-- What is asked of a session between its starts.
pub data Operation : Type 0 where
  received received_auth : SessionData → ℕ → ℕ → Operation
  transmitted transmitted_auth : FrameWriter → ℕ → Bytes → Operation

-- An answer that the session gives because it is closed.
abbrev pub IsRefusal : Checked Bytes → Type 0
IsRefusal answer =
    (answer ≡ fail (crypto no_valid_session)) ⊎ (answer ≡ fail (crypto max_nonce_exceeded))

abbrev formatted : Formatted → Validated
formatted (answer, s, rest) = (answer, s)

module _ ⦃ser : Ser4cpp⦄ ⦃exe : Exe4cpp⦄ where
  pub perform : Operation → Session → Validated
  perform (received message now dest) s = validate_session_data message now dest s
  perform (received_auth message now dest) s = validate_session_auth message now dest s
  perform (transmitted frame_writer now text) s =
      formatted (format_session_data frame_writer now text s)
  perform (transmitted_auth frame_writer now text) s =
      formatted (format_session_auth frame_writer now text s)

  pub answers : List Operation → Session → List (Checked Bytes)
  answers [] s = []
  answers (operation ∷ operations) s = let r = perform operation s in r.0 ∷ answers operations r.1

  with_nonce_func-closed :
      (message : SessionData) (now dest : ℕ) (verify : ℕ → ℕ → Bool) (s : Session)
      → s.valid ≡ false
      → validate_session_data_with_nonce_func message now dest verify s
        ≡ (fail (crypto no_valid_session), count_without_session s)
  unfolding validate_session_data_with_nonce_func
  with_nonce_func-closed message now dest verify s e = simp e

  no_nonce_check-closed :
      (frame_writer : FrameWriter) (now : ℕ) (text : Bytes) (s : Session)
      → s.valid ≡ false
      → format_session_data_no_nonce_check frame_writer now text s
        ≡ (fail (crypto no_valid_session), s, text)
  unfolding format_session_data_no_nonce_check
  no_nonce_check-closed frame_writer now text s e = simp e

  -- An answer of a closed session, which stays closed.
  IsQuiet : Validated → Type 0
  IsQuiet (answer, s) = IsRefusal answer × IsClosed s

  count_without_session-IsClosed : (s : Session) → IsClosed s → IsClosed (count_without_session s)
  count_without_session-IsClosed s C = record {
    invalid = C.invalid;
    no_rx_key = C.no_rx_key;
    no_tx_key = C.no_tx_key;
  }

  guarded-IsQuiet :
      (b : Bool) (frame_writer : FrameWriter) (now : ℕ) (text : Bytes) (s : Session)
      → IsClosed s
      → IsQuiet (
          formatted (
            if b
            then (fail (crypto max_nonce_exceeded), s, text)
            else format_session_data_no_nonce_check frame_writer now text s))
  unfolding IsQuiet
  guarded-IsQuiet true frame_writer now text s C = (inr refl, C)
  guarded-IsQuiet false frame_writer now text s C =
      rw (no_nonce_check-closed frame_writer now text s C.invalid) (inl refl, C)

  perform-IsQuiet :
      (operation : Operation) (s : Session) → IsClosed s → IsQuiet (perform operation s)
  unfolding perform IsQuiet validate_session_data validate_session_auth refuse_empty
      format_session_data format_session_auth
  perform-IsQuiet (received message now dest) s C =
      rw (with_nonce_func-closed message now dest s.algorithms.verify_nonce s C.invalid)
        (inl refl, count_without_session-IsClosed s C)
  perform-IsQuiet (received_auth message now dest) s C =
      rw (with_nonce_func-closed message now dest _ s C.invalid)
        (inl refl, count_without_session-IsClosed s C)
  perform-IsQuiet (transmitted frame_writer now text) s C =
      guarded-IsQuiet (leb s.parameters.max_nonce s.tx_nonce) frame_writer now text s C
  perform-IsQuiet (transmitted_auth frame_writer now text) s C =
      guarded-IsQuiet (not (s.tx_nonce == 0)) frame_writer now text s C

  answers-closed :
      (operations : List Operation) (s : Session)
      → IsClosed s
      → All IsRefusal (answers operations s)
  unfolding answers IsQuiet
  answers-closed [] s C = tt
  answers-closed (operation ∷ operations) s C =
      let (refused, closed) = perform-IsQuiet operation s C in
      (refused, answers-closed operations (perform operation s).1 closed)

  -- `reset` ends a session for good. Whatever session is reset, and whatever is asked of it from then
  -- on, messages to validate and data to format, those of the authentication too, in any order and at
  -- any times: as long as it is not initialized again it refuses every message and gives no frame,
  -- with the error `no_valid_session` or `max_nonce_exceeded`.
  pub reset_refuses :
      (s : Session) (operations : List Operation) → All IsRefusal (answers operations (reset s))
  unfolding reset zero_buffer
  reset_refuses s operations =
      answers-closed operations (reset s)
        (record { invalid = refl; no_rx_key = refl; no_tx_key = refl })
