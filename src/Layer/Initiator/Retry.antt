-- ===== src/Layer/Initiator/Retry.antt =====
-- An initiator that gets no reply tries again.
use ssp21_cpp.Base.{ℕ, ◌≡◌, ◌⊎◌, inl, inr, refl, true, Bytes, some}
use ssp21_cpp.Ser.{Ser4cpp}
use ssp21_cpp.Wire.{ok}
use ssp21_cpp.Wire.Messages.Bodies.{request_handshake_begin_write}
use ssp21_cpp.Session.State.{Exe4cpp}
use ssp21_cpp.Layer.{CryptoLayer, Surroundings}
use ssp21_cpp.Layer.Initiator.{
  wait_for_begin_reply, wait_for_auth_reply, wait_for_retry, response, retry, Params, SessionLimits,
  IInitiatorHandshake, Initiator, response_timed_out, retry_timed_out, request_of,
  idle_on_handshake_required, state_on_handshake_required, state_on_response_timeout,
  state_on_retry_timeout, handle, on_handshake_required, on_response_timer, on_retry_timer,
}
use ssp21_cpp.Layer.Initiator.Diagram.{fired}

module _ ⦃ser : Ser4cpp⦄ ⦃exe : Exe4cpp⦄ {H L : Type 0} (env : Surroundings (Initiator H) L)
    (handshakes : IInitiatorHandshake H) (params : Params) (limits : SessionLimits) where
  -- What the two time-outs leave, one after the other.
  pub record IsRetried (c waited again : CryptoLayer (Initiator H) L) (frame : Bytes) : Type 0 where
    pub waits : waited.derived.handshake_state ≡ wait_for_retry
    pub timer : waited.derived.response_and_retry_timer ≡ retry params.retry_timeout
    pub asks : again.derived.handshake_state ≡ wait_for_begin_reply
    pub next_timer : again.derived.response_and_retry_timer ≡ response params.response_timeout
    pub sent : again.lower ≡ (env.lower.start_tx_from_upper frame c.lower).1

  -- A reply that does not come does not stop the initiator. In either state that waits for a reply,
  -- once the response timer fires it waits with the retry timer, and once that one fires, where the
  -- lower layer is ready to transmit, the handshake starts anew and the request fits the frame writer,
  -- the request's frame is given to the lower layer, and the initiator waits for the reply again, with
  -- the response timer.
  pub missing_reply-IsRetried :
      (now now2 : ℕ) (c : CryptoLayer (Initiator H) L) (mode : Bytes × Bytes) (h : H)
      (request frame : Bytes)
      → (c.derived.handshake_state ≡ wait_for_begin_reply)
        ⊎ (c.derived.handshake_state ≡ wait_for_auth_reply)
      → env.lower.is_tx_ready c.lower ≡ true
      → handshakes.initialize_new_handshake c.derived.handshake ≡ (some mode, h)
      → env.frame_writer.write
          (request_handshake_begin_write (request_of env handshakes params limits mode))
        ≡ record { err = ok; written = request; frame = frame }
      → let waited =
          on_response_timer env handshakes params limits now (fired response_timed_out c) in
        IsRetried c waited
          (on_retry_timer env handshakes params limits now2 (fired retry_timed_out waited))
          frame
  unfolding on_response_timer on_retry_timer on_handshake_required handle state_on_response_timeout
      state_on_retry_timeout state_on_handshake_required idle_on_handshake_required
  missing_reply-IsRetried now now2 c mode h request frame (inl e) ready init wrote =
      rw (e, ready, init, wrote)
        record { waits = refl; timer = refl; asks = refl; next_timer = refl; sent = refl }
  missing_reply-IsRetried now now2 c mode h request frame (inr e) ready init wrote =
      rw (e, ready, init, wrote)
        record { waits = refl; timer = refl; asks = refl; next_timer = refl; sent = refl }
