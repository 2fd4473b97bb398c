-- ===== src/Handshake/Qkd/Agreement.antt =====
-- The two ends of a handshake under a distributed key agree on a session.
use ssp21_cpp.Base.{
  ℕ, ◌^◌, ◌≤◌, ◌<◌, ◌≡◌, refl, sym, ap, ◌∙◌, true, Bytes, [], ◌∷◌, Option, some, arith, length,
}
use ssp21_cpp.Ser.{Ser4cpp, be64, from_be64}
use ssp21_cpp.Wire.{ok}
use ssp21_cpp.Wire.Messages.Bodies.{
  RequestHandshakeBegin, reply_handshake_begin_read, reply_handshake_begin_write,
}
use ssp21_cpp.Wire.Messages.RoundTrip.{reply_handshake_begin_wire}
use ssp21_cpp.Session.{SecureBuffer, as_seq}
use ssp21_cpp.Session.State.{Exe4cpp, Session}
use ssp21_cpp.Session.Transmit.{FrameWriter}
use ssp21_cpp.Layer.Initiator.{SessionLimits}
use ssp21_cpp.Layer.Responder.{success}
use ssp21_cpp.Qix.{KeyRecord}
use ssp21_cpp.Handshake.{CryptoBackend, compute_hash}
use ssp21_cpp.Handshake.Algorithms.{
  Common, configured, get_common, configure_common, default_common,
}
use ssp21_cpp.Handshake.Algorithms.Same.{get_or_throw-configured, configure_common-same}
use ssp21_cpp.Handshake.Start.{reply_of}
use ssp21_cpp.Handshake.Peers.{
  IsCryptoBackend, IsFrameWriter, IsPeer, IsBetween, derived-IsPeer, reply_sent,
}
use ssp21_cpp.Handshake.Qkd.{
  IKeySource, IKeyLookup, QkdInitiator, initialize_new_handshake, finalize_request_tx,
  initialize_session, process, mix_handshake_hash,
}

id_back : (id : ℕ) → id < 2 ^ 64 → from_be64 (be64 id) ≡ some (id, [])
id_back id h = ground arith

module _ ⦃ser : Ser4cpp⦄ ⦃exe : Exe4cpp⦄ {R K1 K2 : Type 0} (backend : CryptoBackend R)
    (source : IKeySource K1) (lookup : IKeyLookup K2) where
  -- The request carries the key's identifier, and the initiator keeps the key.
  initialize_new_handshake-names :
      (h : QkdInitiator K1) (r : KeyRecord) (key : SecureBuffer) (rest : K1)
      → source.consume_key h.key_source ≡ (some r, rest)
      → r.key ≡ some key
      → initialize_new_handshake source h ≡ (
        some ([], be64 r.id),
        record h { key_source = rest; key = some key; key_id_buffer = be64 r.id },
      )
  unfolding initialize_new_handshake
  initialize_new_handshake-names h r key rest consumed present =
      rw (consumed, present) (rw (ser.write_u64_lem r.id (record { space = 8; written = [] })) refl)

  -- The initiator's source gives a key under a 64-bit identifier, which its request carries, and the
  -- responder's lookup has the same key under it; both ends use the algorithms of the request; the
  -- backend and the writer behave as documented, and the reply fits. Then the responder succeeds,
  -- with the frame of an empty reply, and is left without the key; the reply's bytes are read back as
  -- it. If they reach the initiator not before it sent the request, whose bytes both ends have
  -- hashed, it starts a session, from a time between the two; and the sessions are the two ends of
  -- one.
  pub qkd_agreement :
      (public_of : SecureBuffer → Bytes) (algorithms : Common) (h : QkdInitiator K1) (r : KeyRecord)
      (key : SecureBuffer) (rest : K1) (msg : RequestHandshakeBegin) (request : Bytes)
      (sent now : ℕ) (writer : FrameWriter) (keys left : K2) (s : Session)
      → IsCryptoBackend backend public_of
      → get_common backend msg.spec ≡ configured algorithms
      → source.consume_key h.key_source ≡ (some r, rest)
      → r.key ≡ some key
      → r.id < 2 ^ 64
      → lookup.find_and_consume_key r.id keys ≡ (some key, left)
      → (initialize_new_handshake source h).0 ≡ some (msg.mode_ephemeral, msg.mode_data)
      → IsFrameWriter writer
      → let reply = reply_of [] [] in
        let response = reply_handshake_begin_wire reply in
        let served = process backend lookup msg request now writer keys s in
        length response ≤ writer.max_payload_size
        → (frame : Bytes) × (writer.write (reply_handshake_begin_write reply)
            ≡ record { err = ok; written = response; frame = frame })
          × (served.0 ≡ success frame)
          × (served.1 ≡ left)
          × (reply_handshake_begin_read response ≡ ok reply)
          × ((limits : SessionLimits) (arrived : ℕ) (t : Session)
              → sent ≤ arrived
              → let begun = (initialize_new_handshake source h).1 in
                let h2 = finalize_request_tx algorithms request sent begun in
                let i = initialize_session algorithms reply response limits arrived h2 t in
                (i.0 ≡ true) × IsBetween sent arrived i.2 × IsPeer i.2 served.2)
  unfolding process initialize_session finalize_request_tx mix_handshake_hash compute_hash
  qkd_agreement public_of algorithms h r key rest msg request sent now writer keys left s B got
        consumed present small found begun W room =
      let names = initialize_new_handshake-names h r key rest consumed present in
      let named = sym begun ∙ ap (λ (t : Option (Bytes × Bytes) × QkdInitiator K1). t.0) names in
      let no_ephemeral : msg.mode_ephemeral ≡ [] = cc in
      let id : msg.mode_data ≡ be64 r.id = cc in
      let read : ser.read_u64 msg.mode_data ≡ some (r.id, []) =
        ser.read_u64_lem msg.mode_data ∙ ap from_be64 id ∙ id_back r.id small in
      let (fine, same) = get_or_throw-configured _ algorithms got in
      let again : configure_common backend msg.spec algorithms
          ≡ configure_common backend msg.spec (default_common backend) =
        configure_common-same backend msg.spec (default_common backend) algorithms fine in
      let (frame, wrote, back) =
        reply_sent writer [] [] W (omega arith, tt) (omega arith, tt) room in
      rw (no_ephemeral, fine, read, found, same, again, fine, same, wrote)
        (
          frame,
          refl,
          refl,
          refl,
          back,
          λ limits arrived t le. rw names (
              derived-IsPeer msg.spec algorithms
                (as_seq (
                  compute_hash algorithms.handshake.hash request
                    (reply_handshake_begin_wire (reply_of [] []))))
                (as_seq key ∷ []) B got limits msg.constraints sent arrived now t s le),
        )
