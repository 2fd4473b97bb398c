-- ===== src/Session/Receive/Replay.antt =====
-- No message is accepted twice: the nonces that a session accepts increase.
use ssp21_cpp.Base.{ℕ, ◌≤◌, ◌<◌, ◌≡◌, refl, ap, Bool, true, Bytes, List, [], ◌∷◌, arith, ltb→lt}
use ssp21_cpp.Ser.{Ser4cpp}
use ssp21_cpp.Wire.Messages.Bodies.{SessionData}
use ssp21_cpp.Session.{Checked, pass, fail, verify_strict_increment, verify_greater_than_last}
use ssp21_cpp.Session.State.{Exe4cpp, Param, Session}
use ssp21_cpp.Session.Receive.{
  validate_session_data, validate_session_data_with_nonce_func, refuse_empty,
}
use ssp21_cpp.Session.Receive.Checks.{validate_session_data-pass, func-pass, func-fail, take_nonce}

-- A verification function that passes larger nonces only.
abbrev pub IsIncreasing : (ℕ → ℕ → Bool) → Type 0
IsIncreasing verify_nonce =
    (last_nonce new_nonce : ℕ) → verify_nonce last_nonce new_nonce ≡ true → last_nonce < new_nonce

pub verify_greater_than_last-IsIncreasing : IsIncreasing verify_greater_than_last
verify_greater_than_last-IsIncreasing last_nonce new_nonce e = ltb→lt last_nonce new_nonce e

pub verify_strict_increment-IsIncreasing : IsIncreasing verify_strict_increment
verify_strict_increment-IsIncreasing last_nonce new_nonce e = ground arith

-- A message that arrives, with the time and the length of the destination.
pub record Arrival : Type 0 where
  pub message : SessionData
  pub now : ℕ
  pub dest : ℕ

-- The nonces of the messages that pass, oldest first.
abbrev pub Increasing : ℕ → ℕ → List ℕ → Type 0
Increasing last top [] = Unit
Increasing last top (n ∷ nonces) = last < n × (n ≤ top × Increasing n top nonces)

module _ ⦃ser : Ser4cpp⦄ ⦃exe : Exe4cpp⦄ where
  unfoldable pub accepted : List Arrival → Session → List ℕ
  accepted [] s = []
  accepted (a ∷ arrivals) s =
      let (result, s') = validate_session_data a.message a.now a.dest s in
      let rest = accepted arrivals s' in
      elim result [ pass payload ↦ a.message.metadata.nonce ∷ rest | fail ec ↦ rest ]

  -- What any arrival keeps.
  record Keeps (s s' : Session) : Type 0 where
    same_algorithms : s'.algorithms ≡ s.algorithms
    same_parameters : s'.parameters ≡ s.parameters
    not_less : s.rx_nonce ≤ s'.rx_nonce

  func-Keeps :
      (message : SessionData) (now dest : ℕ) (s s' : Session) (r : Checked Bytes)
      → IsIncreasing s.algorithms.verify_nonce
      → validate_session_data_with_nonce_func message now dest s.algorithms.verify_nonce s ≡ (r, s')
      → Keeps s s'
  unfolding take_nonce
  func-Keeps message now dest s s' (pass p) inc e =
      let (v, read_ok, fresh, next) =
        func-pass message now dest s.algorithms.verify_nonce s s' p e in
      let less : s.rx_nonce < message.metadata.nonce =
        inc s.rx_nonce message.metadata.nonce fresh.verified in
      let there : s'.rx_nonce ≡ message.metadata.nonce = ap (λ (t : Session). t.rx_nonce) next in
      record {
        same_algorithms = ap (λ (t : Session). t.algorithms) next;
        same_parameters = ap (λ (t : Session). t.parameters) next;
        not_less = omega (arith, less, there);
      }
  func-Keeps message now dest s s' (fail ec) inc e =
      let next = func-fail message now dest s.algorithms.verify_nonce s s' ec e in
      let there : s'.rx_nonce ≡ s.rx_nonce = ap (λ (t : Session). t.rx_nonce) next in
      record {
        same_algorithms = ap (λ (t : Session). t.algorithms) next;
        same_parameters = ap (λ (t : Session). t.parameters) next;
        not_less = omega (arith, there);
      }

  refuse_empty-Keeps :
      (s : Session) (r : Checked Bytes × Session) → Keeps s r.1 → Keeps s (refuse_empty r).1
  unfolding refuse_empty
  refuse_empty-Keeps s (pass [], t) k = record {
    same_algorithms = k.same_algorithms;
    same_parameters = k.same_parameters;
    not_less = k.not_less;
  }
  refuse_empty-Keeps s (pass (b ∷ payload), t) k = k
  refuse_empty-Keeps s (fail ec, t) k = k

  validate_session_data-Keeps :
      (message : SessionData) (now dest : ℕ) (s : Session)
      → IsIncreasing s.algorithms.verify_nonce
      → Keeps s (validate_session_data message now dest s).1
  unfolding validate_session_data
  validate_session_data-Keeps message now dest s inc =
      refuse_empty-Keeps s _ (func-Keeps message now dest s _ _ inc refl)

  weaken :
      (last last' top : ℕ) (nonces : List ℕ)
      → last ≤ last'
      → Increasing last' top nonces
      → Increasing last top nonces
  weaken last last' top [] h i = i
  weaken last last' top (n ∷ nonces) h (a, (b, i)) = (omega (arith, h, a), (b, i))

  restate :
      (last last' top top' : ℕ) (nonces : List ℕ)
      → last' ≡ last
      → top' ≡ top
      → Increasing last' top' nonces
      → Increasing last top nonces
  restate last last' top top' nonces e f i = rw (← e, ← f) i

  still-IsIncreasing :
      (s s' : Session)
      → Keeps s s'
      → IsIncreasing s.algorithms.verify_nonce
      → IsIncreasing s'.algorithms.verify_nonce
  still-IsIncreasing s s' k inc = rw (k.same_algorithms) inc

  taken :
      (s' : Session) (message : SessionData) (s : Session)
      → s' ≡ take_nonce message s
      → s'.rx_nonce ≡ message.metadata.nonce
  unfolding take_nonce
  taken s' message s e = ap (λ (t : Session). t.rx_nonce) e

  -- Whatever messages arrive, in whatever order and at whatever times, the nonces that a session
  -- accepts strictly increase from the last one it had taken, and none is over its maximum, if its
  -- verification function passes larger nonces only. So no nonce is accepted twice.
  pub accepted-Increasing :
      (arrivals : List Arrival) (s : Session)
      → IsIncreasing s.algorithms.verify_nonce
      → Increasing s.rx_nonce s.parameters.max_nonce (accepted arrivals s)
  unfolding accepted
  accepted-Increasing [] s inc = tt
  accepted-Increasing (a ∷ arrivals) s inc =
      let more =
        accepted-Increasing arrivals (validate_session_data a.message a.now a.dest s).1
          (still-IsIncreasing s _ kept inc) in
      one (validate_session_data a.message a.now a.dest s) refl kept more
    where
      kept : Keeps s (validate_session_data a.message a.now a.dest s).1
      kept = validate_session_data-Keeps a.message a.now a.dest s inc

      one :
          (r : Checked Bytes × Session)
          → validate_session_data a.message a.now a.dest s ≡ r
          → Keeps s r.1
          → Increasing r.1.rx_nonce r.1.parameters.max_nonce (accepted arrivals r.1)
          → Increasing s.rx_nonce s.parameters.max_nonce (elim r.0 [
            | pass payload ↦ a.message.metadata.nonce ∷ accepted arrivals r.1
            | fail ec ↦ accepted arrivals r.1
          ])
      one (pass p, s') e k more =
          let (v, read_ok, fresh, next, full) =
            validate_session_data-pass a.message a.now a.dest s s' p e in
          let there : s'.rx_nonce ≡ a.message.metadata.nonce = taken s' a.message s next in
          (
            inc s.rx_nonce a.message.metadata.nonce fresh.verified,
            (
              fresh.max_nonce,
              restate _ _ _ _ (accepted arrivals s') there
                  (ap (λ (t : Param). t.max_nonce) k.same_parameters) more,
            ),
          )
      one (fail ec, s') e k more =
          weaken s.rx_nonce s'.rx_nonce s.parameters.max_nonce (accepted arrivals s') k.not_less (
            restate _ _ _ _ (accepted arrivals s') refl
              (ap (λ (t : Param). t.max_nonce) k.same_parameters) more)
