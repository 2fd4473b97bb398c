-- ===== src/Session/Mode/RoundTrip.antt =====
-- What a session mode writes, it reads back.
use ssp21_cpp.Base.{
  ℕ, ◌≤◌, ◌≡◌, ◌↔◌, ◌%◌, ◌^◌, refl, ◌∙◌, sym, ap, Bool, true, false, not, Bytes, List, [], ◌∷◌,
  ◌==◌, ltb, ltb-false, le→ltb, length, take, drop, arith, min, if◌then◌else◌,
}
use ssp21_cpp.Ser.{Ser4cpp}
use ssp21_cpp.Wire.Structs.Handshake.{AuthMetadata}
use ssp21_cpp.Wire.Messages.Bodies.{SessionData}
use ssp21_cpp.Session.{Checked, pass, fail, SecureBuffer, lookup_length_in_bytes, as_seq, ErrorCode}
use ssp21_cpp.Session.Mode.{
  Aead, SessionMode, calc_user_data_tx_length, get_metadata_bytes, get_user_data_length_bytes, read,
  write, message_of, aead_mac_encrypt, aead_mac_decrypt, mac_mode,
}
use ssp21_cpp.Session.Receive.Checks.{not-false}

guard :
    {A : Type 0} (b : Bool) (ec : ErrorCode) (rest : Checked A) (p : A)
    → (if b then fail ec else rest) ≡ pass p
    → (b ≡ false) × (rest ≡ pass p)
guard true ec rest p e = ground arith
guard false ec rest p e = (refl, e)

pub calc_user_data_tx_length-min :
    (total room : ℕ) → calc_user_data_tx_length total room 1024 ≡ min (min total room) 1024
unfolding calc_user_data_tx_length
calc_user_data_tx_length-min total room = omega arith

module _ ⦃ser : Ser4cpp⦄ where
  message-pass :
      (metadata : AuthMetadata) (remaining rest : Bytes) (message : SessionData) (o : Checked Aead)
      → message_of metadata remaining o ≡ pass (message, rest)
      → (r : Aead) × (o ≡ pass r)
        × (rest ≡ remaining)
        × (message
            ≡ record { metadata = metadata; user_data = r.ciphertext; auth_tag = r.auth_tag })
  unfolding message_of
  message-pass metadata remaining rest message (pass r) e = (r, refl, ground arith, ground arith)
  message-pass metadata remaining rest message (fail ec) e = ground arith

  -- What `write` has done when it gives a message.
  pub write-pass :
      (mode : SessionMode) (key : SecureBuffer) (metadata : AuthMetadata) (user_data : Bytes)
      (room : ℕ) (message : SessionData) (rest : Bytes)
      → write mode key metadata user_data room ≡ pass (message, rest)
      → (r : Aead) × ((lookup_length_in_bytes key.length == 32) ≡ true)
        × (mode.encrypt key metadata.nonce
              (get_metadata_bytes metadata)
              (take (calc_user_data_tx_length (length user_data) room 1024) user_data)
              room
            ≡ pass r)
        × (rest ≡ drop (calc_user_data_tx_length (length user_data) room 1024) user_data)
        × (message
            ≡ record { metadata = metadata; user_data = r.ciphertext; auth_tag = r.auth_tag })
  unfolding write
  write-pass mode key metadata user_data room message rest e =
      let (k, e1) = guard (not (lookup_length_in_bytes key.length == 32)) _ _ _ e in
      let (z, e2) = guard (room == 0) _ _ _ e1 in
      let (r, ran, same, built) = message-pass metadata _ rest message _ e2 in
      (r, not-false _ k, ran, same, built)

  module _ (calc : Bytes → List Bytes → Bytes) (secure_equals : Bytes → Bytes → Bool)
      (trunc : ℕ) where
    -- The tag that the mode gives to a message.
    unfoldable pub tag_of : SecureBuffer → SessionData → Bytes
    tag_of key m = take trunc (
        calc (as_seq key) (
          get_metadata_bytes m.metadata
          ∷ get_user_data_length_bytes (length m.user_data % 2 ^ 16)
          ∷ m.user_data
          ∷ []))

    -- The mode that authenticates only reads a message exactly if its key has 32 bytes, the
    -- destination has at most 65535 and the tag of the message equals its own; it then gives the
    -- user data.
    pub mac_read-pass :
        (key : SecureBuffer) (m : SessionData) (dest : ℕ) (p : Bytes)
        → (read (mac_mode calc secure_equals trunc) key m dest ≡ pass p) ↔ (
            ((lookup_length_in_bytes key.length == 32) ≡ true)
            × (dest ≤ 65535)
            × (secure_equals (tag_of key m) m.auth_tag ≡ true)
            × (p ≡ m.user_data))
    unfolding read aead_mac_decrypt tag_of
    mac_read-pass key m dest p = (forth, back)
      where
        forth :
            read (mac_mode calc secure_equals trunc) key m dest ≡ pass p
            → ((lookup_length_in_bytes key.length == 32) ≡ true)
              × (dest ≤ 65535)
              × (secure_equals (tag_of key m) m.auth_tag ≡ true)
              × (p ≡ m.user_data)
        forth e =
            let (k, e1) = guard (not (lookup_length_in_bytes key.length == 32)) _ _ _ e in
            let (d, e2) = guard (ltb 65535 dest) _ _ _ e1 in
            let (t, e3) = guard (not (secure_equals (tag_of key m) m.auth_tag)) _ _ _ e2 in
            (not-false _ k, ltb-false _ _ d, not-false _ t, ground arith)

        back :
            ((lookup_length_in_bytes key.length == 32) ≡ true)
              × (dest ≤ 65535)
              × (secure_equals (tag_of key m) m.auth_tag ≡ true)
              × (p ≡ m.user_data)
            → read (mac_mode calc secure_equals trunc) key m dest ≡ pass p
        back (k, d, t, e) = rw (k, le→ltb 65535 dest d, t, e)

    tagged :
        (key : SecureBuffer) (metadata : AuthMetadata) (m : SessionData) (r : Aead) (cut : Bytes)
        → pass (record {
          ciphertext = cut;
          auth_tag = take trunc (
              calc (as_seq key) (
                get_metadata_bytes metadata
                ∷ get_user_data_length_bytes (length cut % 2 ^ 16)
                ∷ cut
                ∷ []));
        })
          ≡ pass r
        → m ≡ record { metadata = metadata; user_data = r.ciphertext; auth_tag = r.auth_tag }
        → (m.metadata ≡ metadata) × (m.user_data ≡ cut) × (m.auth_tag ≡ tag_of key m)
    unfolding tag_of
    tagged key metadata m r cut made built =
        let a : m.metadata ≡ metadata = ap (λ (t : SessionData). t.metadata) built in
        let b : m.user_data ≡ r.ciphertext = ap (λ (t : SessionData). t.user_data) built in
        let c : m.auth_tag ≡ r.auth_tag = ap (λ (t : SessionData). t.auth_tag) built in
        let d : r.ciphertext ≡ cut = ground arith in
        let u : m.user_data ≡ cut = b ∙ d in
        let tag : AuthMetadata → Bytes → Bytes = λ md bytes. take trunc (
          calc (as_seq key) (
            get_metadata_bytes md
            ∷ get_user_data_length_bytes (length bytes % 2 ^ 16)
            ∷ bytes
            ∷ [])) in
        let f : r.auth_tag ≡ tag metadata cut = ground arith in
        (a, u, c ∙ f ∙ ap (λ (t : AuthMetadata). tag t cut) (sym a) ∙ ap (tag m.metadata) (sym u))

    pub mac_write-pass :
        (key : SecureBuffer) (metadata : AuthMetadata) (user_data : Bytes) (room : ℕ)
        (m : SessionData) (rest : Bytes)
        → write (mac_mode calc secure_equals trunc) key metadata user_data room ≡ pass (m, rest)
        → ((lookup_length_in_bytes key.length == 32) ≡ true)
          × (m.metadata ≡ metadata)
          × (m.user_data ≡ take (min (min (length user_data) room) 1024) user_data)
          × (m.auth_tag ≡ tag_of key m)
    unfolding aead_mac_encrypt tag_of
    mac_write-pass key metadata user_data room m rest e =
        let (r, k, ran, same, built) =
          write-pass (mac_mode calc secure_equals trunc) key metadata user_data room m rest e in
        let (short, made) =
          guard
            (ltb 65535
              (length (take (calc_user_data_tx_length (length user_data) room 1024) user_data)))
            _ _ _ ran in
        let (a, b, c) = tagged key metadata m r _ made built in
        (
          k,
          a,
          b
              ∙ ap (λ (n : ℕ). take n user_data)
                  (calc_user_data_tx_length-min (length user_data) room),
          c,
        )

    -- A message that the mode writes is read back, under a key with the same bytes, as the user data
    -- that it took: up to 1024 bytes, and no more than the encryption buffer holds. The destination
    -- has at most 65535 bytes, and the backend finds equal bytes equal.
    pub mac_read-write :
        (key key' : SecureBuffer) (metadata : AuthMetadata) (user_data : Bytes) (room dest : ℕ)
        (m : SessionData) (rest : Bytes)
        → ((b : Bytes) → secure_equals b b ≡ true)
        → key' ≡ key
        → dest ≤ 65535
        → write (mac_mode calc secure_equals trunc) key metadata user_data room ≡ pass (m, rest)
        → read (mac_mode calc secure_equals trunc) key' m dest
          ≡ pass (take (min (min (length user_data) room) 1024) user_data)
    mac_read-write key key' metadata user_data room dest m rest equal same_key d e =
        let (k, a, b, c) = mac_write-pass key metadata user_data room m rest e in
        let tag : secure_equals (tag_of key m) m.auth_tag ≡ true =
          ap (secure_equals (tag_of key m)) c ∙ equal (tag_of key m) in
        ap (λ (x : SecureBuffer). read (mac_mode calc secure_equals trunc) x m dest) same_key
        ∙ (mac_read-pass key m dest (take (min (min (length user_data) room) 1024) user_data)).1
            (k, d, tag, sym b)
