-- ===== src/Session/Receive/Checks.antt =====
-- What a session has checked of a message that it accepts, and what it keeps when it refuses one.
use ssp21_cpp.Base.{
  ℕ, ◌-◌, ◌≤◌, ◌≡◌, refl, ◌∙◌, sym, ap, Bool, true, false, not, Bytes, [], ◌∷◌, ltb, ltb-false,
  le→ltb, inl, inr, ◌⊎◌, ◌≢◌, arith, if◌then◌else◌,
}
use ssp21_cpp.Ser.{Ser4cpp}
use ssp21_cpp.Wire.Messages.Bodies.{SessionData}
use ssp21_cpp.Session.{Checked, pass, fail, ErrorCode, crypto, empty_user_data}
use ssp21_cpp.Session.Mode.{read}
use ssp21_cpp.Session.State.{Exe4cpp, milliseconds, Session}
use ssp21_cpp.Session.Receive.{
  check_authentic, check_payload, validate_session_data_with_nonce_func, count_success,
  refuse_empty, validate_session_data,
}

-- A guard that answers an error, left behind by a run that passes.
pub guard :
    {S : Type 0} {A : Type 0} (b : Bool) (ec : ErrorCode) (s : S) (rest : Checked A × S) (p : A)
    (s' : S)
    → (if b then (fail ec, s) else rest) ≡ (pass p, s')
    → (b ≡ false) × (rest ≡ (pass p, s'))
guard true ec s rest p s' e = cc
guard false ec s rest p s' e = (refl, e)

-- The two ways through a guard.
pub branch :
    {R : Type 0} (b : Bool) (r1 r2 r : R)
    → (if b then r1 else r2) ≡ r
    → ((b ≡ true) × (r1 ≡ r)) ⊎ ((b ≡ false) × (r2 ≡ r))
branch true r1 r2 r e = inl (refl, e)
branch false r1 r2 r e = inr (refl, e)

pub not-false : (b : Bool) → not b ≡ false → b ≡ true
not-false true e = refl
not-false false e = cc

module _ ⦃exe : Exe4cpp⦄ where
  -- The message is fresh for the session at that time.
  pub record IsFresh (verify_nonce : ℕ → ℕ → Bool) (message : SessionData) (now : ℕ) (s : Session)
      : Type 0 where
    pub no_rollback : s.parameters.session_start ≤ now
    pub in_session : now - s.parameters.session_start ≤ s.parameters.max_session_time
    pub alive : now - s.parameters.session_start ≤ milliseconds message.metadata.valid_until_ms
    pub max_nonce : message.metadata.nonce ≤ s.parameters.max_nonce
    pub verified : verify_nonce s.rx_nonce message.metadata.nonce ≡ true

  unfoldable pub take_nonce : SessionData → Session → Session
  take_nonce message s = count_success (record s { rx_nonce = message.metadata.nonce })

  check_authentic-pass :
      (verify_nonce : ℕ → ℕ → Bool) (message : SessionData) (now : ℕ) (payload p : Bytes)
      (s s' : Session)
      → check_authentic verify_nonce message now payload s ≡ (pass p, s')
      → IsFresh verify_nonce message now s × (p ≡ payload) × (s' ≡ take_nonce message s)
  unfolding check_authentic take_nonce
  check_authentic-pass verify_nonce message now payload p s s' e =
      let time = now - s.parameters.session_start in
      let nonce = message.metadata.nonce in
      let (a, e1) = guard (ltb now s.parameters.session_start) _ _ _ p s' e in
      let (b, e2) = guard (ltb s.parameters.max_session_time time) _ _ _ p s' e1 in
      let (c, e3) = guard (ltb (milliseconds message.metadata.valid_until_ms) time) _ _ _ p s' e2 in
      let (d, e4) = guard (ltb s.parameters.max_nonce nonce) _ _ _ p s' e3 in
      let (f, e5) = guard (not (verify_nonce s.rx_nonce nonce)) _ _ _ p s' e4 in
      (
        record {
          no_rollback = ltb-false _ _ a;
          in_session = ltb-false _ _ b;
          alive = ltb-false _ _ c;
          max_nonce = ltb-false _ _ d;
          verified = not-false _ f;
        },
        cc,
        sym (ap (λ (r : Checked Bytes × Session). r.1) e5),
      )

  check_authentic-fail :
      (verify_nonce : ℕ → ℕ → Bool) (message : SessionData) (now : ℕ) (payload : Bytes)
      (s s' : Session) (ec : ErrorCode)
      → check_authentic verify_nonce message now payload s ≡ (fail ec, s')
      → s' ≡ record s { statistics = s'.statistics }
  unfolding check_authentic
  check_authentic-fail verify_nonce message now payload s s' ec e = ground (arith)

module _ ⦃ser : Ser4cpp⦄ ⦃exe : Exe4cpp⦄ where
  unfoldable pub payload_of : SessionData → ℕ → Session → Checked Bytes
  payload_of message dest s = read s.algorithms.session_mode s.keys.rx_key message dest

  -- A message that passes: the session is valid, the message decrypts under its receiving key to
  -- the payload, it is fresh, and the session has taken its nonce and counted it.
  pub func-pass :
      (message : SessionData) (now dest : ℕ) (verify_nonce : ℕ → ℕ → Bool) (s s' : Session)
      (p : Bytes)
      → validate_session_data_with_nonce_func message now dest verify_nonce s ≡ (pass p, s')
      → (s.valid ≡ true)
        × (payload_of message dest s ≡ pass p)
        × IsFresh verify_nonce message now s
        × (s' ≡ take_nonce message s)
  unfolding validate_session_data_with_nonce_func check_payload payload_of
  func-pass message now dest verify_nonce s s' p e =
      let (v, e1) = guard (not s.valid) _ _ _ p s' e in
      let (read_ok, fresh, next) = payload-pass (payload_of message dest s) refl e1 in
      (not-false s.valid v, read_ok, fresh, next)
    where
      payload-pass :
          (o : Checked Bytes)
          → payload_of message dest s ≡ o
          → check_payload verify_nonce message now o s ≡ (pass p, s')
          → (payload_of message dest s ≡ pass p)
            × IsFresh verify_nonce message now s
            × (s' ≡ take_nonce message s)
      payload-pass (pass q) r c =
          let (fresh, same, next) = check_authentic-pass verify_nonce message now q p s s' c in
          (r ∙ ap pass (sym same), fresh, next)
      payload-pass (fail ec) r c = cc

  pub func-fail :
      (message : SessionData) (now dest : ℕ) (verify_nonce : ℕ → ℕ → Bool) (s s' : Session)
      (ec : ErrorCode)
      → validate_session_data_with_nonce_func message now dest verify_nonce s ≡ (fail ec, s')
      → s' ≡ record s { statistics = s'.statistics }
  unfolding validate_session_data_with_nonce_func check_payload payload_of
  func-fail message now dest verify_nonce s s' ec e = elim (branch (not s.valid) _ _ _ e) [
    | inl a ↦
        sym (ap (λ (r : Checked Bytes × Session). r.1) a.1)
        ∙ ap (λ (r : Checked Bytes × Session). record s { statistics = r.1.statistics }) a.1
    | inr b ↦ payload-fail (payload_of message dest s) b.1
  ]
    where
      payload-fail :
          (o : Checked Bytes)
          → check_payload verify_nonce message now o s ≡ (fail ec, s')
          → s' ≡ record s { statistics = s'.statistics }
      payload-fail (pass q) c = check_authentic-fail verify_nonce message now q s s' ec c
      payload-fail (fail ec') c = ground (arith)

  nonempty :
      (r : Checked Bytes × Session) (s' : Session) (p : Bytes)
      → refuse_empty r ≡ (pass p, s')
      → (r ≡ (pass p, s')) × (p ≢ [])
  unfolding refuse_empty
  nonempty (pass [], s) s' p e = cc
  nonempty (pass (b ∷ payload), s) s' p e = (e, λ none. cc)
  nonempty (fail ec, s) s' p e = cc

  -- `validate_session_data` gives a payload only if the session is valid, the message decrypts to
  -- that payload under the receiving key, the clock has not gone behind the session's start, the
  -- session and the message are still alive, the nonce is at most the session's maximum and passes
  -- its verification against the last one, and the payload is not empty. It has then taken the
  -- nonce and counted a success, and changed nothing else.
  pub validate_session_data-pass :
      (message : SessionData) (now dest : ℕ) (s s' : Session) (p : Bytes)
      → validate_session_data message now dest s ≡ (pass p, s')
      → (s.valid ≡ true)
        × (payload_of message dest s ≡ pass p)
        × IsFresh s.algorithms.verify_nonce message now s
        × (s' ≡ take_nonce message s)
        × (p ≢ [])
  unfolding validate_session_data
  validate_session_data-pass message now dest s s' p e =
      let (ran, some_bytes) = nonempty _ s' p e in
      let (v, r, fresh, next) = func-pass message now dest s.algorithms.verify_nonce s s' p ran in
      (v, r, fresh, next, some_bytes)

  refused :
      (r : Checked Bytes × Session) (s' : Session) (ec : ErrorCode)
      → refuse_empty r ≡ (fail ec, s')
      → ((r ≡ (fail ec, s'))
          ⊎ ((r.0 ≡ pass []) × (s'.rx_nonce ≡ r.1.rx_nonce) × (ec ≡ crypto empty_user_data)))
  unfolding refuse_empty
  refused (pass [], s) s' ec e =
      inr (refl, ap (λ (r : Checked Bytes × Session). r.1.rx_nonce) (sym e), cc)
  refused (pass (b ∷ payload), s) s' ec e = cc
  refused (fail ec', s) s' ec e = inl e

  -- An error of `validate_session_data` other than `empty_user_data` leaves all of the session but
  -- its statistics as it was.
  pub validate_session_data-fail :
      (message : SessionData) (now dest : ℕ) (s s' : Session) (ec : ErrorCode)
      → validate_session_data message now dest s ≡ (fail ec, s')
      → ec ≢ crypto empty_user_data
      → s' ≡ record s { statistics = s'.statistics }
  unfolding validate_session_data
  validate_session_data-fail message now dest s s' ec e other = elim (refused _ s' ec e) [
    | inl a ↦ func-fail message now dest s.algorithms.verify_nonce s s' ec a
    | inr b ↦ let (p, n, found) = b in absurd (other found)
  ]

  -- A fresh message that decrypts to a payload that is not empty is accepted by a valid session.
  pub validate_session_data-accepts :
      (message : SessionData) (now dest b : ℕ) (payload : Bytes) (s : Session)
      → s.valid ≡ true
      → payload_of message dest s ≡ pass (b ∷ payload)
      → IsFresh s.algorithms.verify_nonce message now s
      → validate_session_data message now dest s ≡ (pass (b ∷ payload), take_nonce message s)
  unfolding validate_session_data validate_session_data_with_nonce_func payload_of check_payload
      check_authentic take_nonce refuse_empty
  validate_session_data-accepts message now dest b payload s v r f = rw (
    v,
    r,
    le→ltb now s.parameters.session_start f.no_rollback,
    le→ltb s.parameters.max_session_time (now - s.parameters.session_start) f.in_session,
    le→ltb (milliseconds message.metadata.valid_until_ms) (now - s.parameters.session_start)
        f.alive,
    le→ltb s.parameters.max_nonce message.metadata.nonce f.max_nonce,
    f.verified,
  )
