-- ===== src/Session/State/Lifecycle.antt =====
-- How sessions begin and end.
use ssp21_cpp.Base.{◌≡◌, refl, ap, Bool, true, false, ◌&&◌, not, arith, inl, inr, ◌⊎◌, sym}
use ssp21_cpp.Session.Receive.Checks.{branch, not-false}
use ssp21_cpp.Session.{
  SessionKeys, BufferLength, empty, length_32, zero_buffer, valid_keys, is_length_32,
}
use ssp21_cpp.Session.State.{
  Session, Param, Algorithms, Sessions, initialize, reset, activate_pending, reset_both,
}

-- The session has no key left and gives and takes no data.
pub record IsClosed (s : Session) : Type 0 where
  pub invalid : s.valid ≡ false
  pub no_rx_key : s.keys.rx_key.length ≡ empty
  pub no_tx_key : s.keys.tx_key.length ≡ empty

-- A session that has been reset is closed: it is invalid and its keys are empty. So are both
-- sessions after `reset_both`, and the pending one after `activate_pending`, which makes the old
-- pending session the active one.
pub activate_pending-IsClosed :
    (s : Sessions)
    → IsClosed (activate_pending s).pending
      × ((activate_pending s).active ≡ s.pending)
      × IsClosed (reset_both s).active
      × IsClosed (reset_both s).pending
unfolding activate_pending reset_both reset zero_buffer
activate_pending-IsClosed s = (
  record { invalid = refl; no_rx_key = refl; no_tx_key = refl },
  refl,
  record { invalid = refl; no_rx_key = refl; no_tx_key = refl },
  record { invalid = refl; no_rx_key = refl; no_tx_key = refl },
)

thirty_two : (l : BufferLength) → is_length_32 l ≡ true → l ≡ length_32
thirty_two BufferLength.length_32 e = refl
thirty_two BufferLength.empty e = cc
thirty_two BufferLength.length_16 e = cc
thirty_two BufferLength.length_64 e = cc

both : (a b : Bool) → (a && b) ≡ true → (a ≡ true) × (b ≡ true)
both true true e = (refl, refl)
both true false e = cc
both false b e = cc

-- Where `initialize` succeeds, both keys have 32 bytes, and the session is valid, has these keys and
-- starts with both nonces zero, whatever it held before; where it fails, the session is as it was.
pub initialize_lem :
    (algorithms : Algorithms) (parameters : Param) (keys : SessionKeys) (s s' : Session)
    (started : Bool)
    → initialize algorithms parameters keys s ≡ (started, s')
    → ((started ≡ true)
        × (keys.rx_key.length ≡ length_32)
        × (keys.tx_key.length ≡ length_32)
        × (s'.valid ≡ true)
        × (s'.rx_nonce ≡ 0)
        × (s'.tx_nonce ≡ 0)
        × (s'.keys ≡ keys))
      ⊎ ((started ≡ false) × (s' ≡ s))
unfolding initialize
initialize_lem algorithms parameters keys s s' started e =
    elim (branch (not (valid_keys keys)) _ _ _ e) [
      | inl a ↦ inr (ground arith, sym (ap (λ (r : Bool × Session). r.1) a.1))
      | inr b ↦
          let (rx, tx) = both _ _ (not-false (valid_keys keys) b.0) in
          let next = ap (λ (r : Bool × Session). r.1) b.1 in
          inl (
            sym (ap (λ (r : Bool × Session). r.0) b.1),
            thirty_two _ rx,
            thirty_two _ tx,
            sym (ap (λ (t : Session). t.valid) next),
            sym (ap (λ (t : Session). t.rx_nonce) next),
            sym (ap (λ (t : Session). t.tx_nonce) next),
            sym (ap (λ (t : Session). t.keys) next),
          )
    ]
