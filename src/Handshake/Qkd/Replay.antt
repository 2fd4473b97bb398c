-- ===== src/Handshake/Qkd/Replay.antt =====
-- A request is served once: its key is gone.
use ssp21_cpp.Base.{
  List, All, Bool-cases, inl, inr, ℕ, ◌≡◌, ◌≢◌, refl, sym, ◌∙◌, ap, true, false, not, Bytes, Option,
  none, some, Bool, [], ◌∷◌, if◌then◌else◌, arith,
}
use mathlib.Core.Path.{subst}
use ssp21_cpp.Ser.{Ser4cpp}
use ssp21_cpp.Wire.Enums.Handshake.{HandshakeError}
use ssp21_cpp.Wire.Messages.Bodies.{RequestHandshakeBegin}
use ssp21_cpp.Session.{SecureBuffer}
use ssp21_cpp.Session.State.{Exe4cpp, Session}
use ssp21_cpp.Session.Transmit.{FrameWriter}
use ssp21_cpp.Layer.Responder.{Result, success, failure}
use ssp21_cpp.Qix.KeyStore
use ssp21_cpp.Qix.KeyStore.{QixKeyStore}
use ssp21_cpp.Qix.KeyStore.Fresh.{IsStore}
use ssp21_cpp.Qix.KeyStore.Runs.{
  Operation, after, Spares, Lacks, after-Lacks, find_and_consume_key-Lacks, taken-Lacks,
  lacking-taken,
}
use ssp21_cpp.Handshake.{CryptoBackend}
use ssp21_cpp.Handshake.Algorithms.{Common, any, configure_common, default_common}
use ssp21_cpp.Handshake.Start.{is_empty}
use ssp21_cpp.Handshake.Qkd.{process, key_id_read, key_looked_up, configured_again}
use ssp21_cpp.Handshake.Qkd.Store.{joined, store_lookup}

-- A test that refuses has let a served request pass.
passed :
    {K : Type 0} (b : Bool) (e : HandshakeError) (keys : K) (session : Session)
    (rest : Result × K × Session) (frame : Bytes)
    → (if b then (failure e, keys, session) else rest).0 ≡ success frame
    → (b ≡ false) × ((if b then (failure e, keys, session) else rest) ≡ rest)
passed true e keys session rest frame h = cc
passed false e keys session rest frame h = (refl, refl)

module _ ⦃ser : Ser4cpp⦄ ⦃exe : Exe4cpp⦄ {R : Type 0} (backend : CryptoBackend R) where
  -- The request names a key that is in the store, and the store is left without it.
  IsServed : RequestHandshakeBegin → QixKeyStore → Result × QixKeyStore × Session → Type 0
  IsServed msg store served =
      (id : ℕ) × (key : SecureBuffer) × (ser.read_u64 msg.mode_data ≡ some (id, []))
      × ((KeyStore.find_and_consume_key id store).0 ≡ some (some key))
      × (served.1 ≡ (KeyStore.find_and_consume_key id store).1)

  module _ (msg : RequestHandshakeBegin) (request : Bytes) (now : ℕ) (writer : FrameWriter)
      (store : QixKeyStore) (s : Session) (frame : Bytes) (a : Common) where
    -- Once the key is taken, the store stays as it is.
    configured_again-keys :
        (key : SecureBuffer) (left : QixKeyStore) (r : HandshakeError × Common)
        → (configured_again backend store_lookup msg request now writer left s key r).1 ≡ left
    configured_again-keys key left (e, algorithms) = ground arith

    configured_again-IsServed :
        (id : ℕ) (key : SecureBuffer)
        → ser.read_u64 msg.mode_data ≡ some (id, [])
        → (KeyStore.find_and_consume_key id store).0 ≡ some (some key)
        → (r : HandshakeError × Common)
        → let served =
            configured_again backend store_lookup msg request now writer
              (KeyStore.find_and_consume_key id store).1
              s
              key
              r in
          served.0 ≡ success frame → IsServed msg store served
    unfolding IsServed
    configured_again-IsServed id key read found r ran = (
      id,
      key,
      read,
      found,
      configured_again-keys key (KeyStore.find_and_consume_key id store).1 r,
    )

    key_looked_up-IsServed :
        (id : ℕ)
        → ser.read_u64 msg.mode_data ≡ some (id, [])
        → (o : Option (Option SecureBuffer)) → (KeyStore.find_and_consume_key id store).0 ≡ o
        → let served =
            key_looked_up backend store_lookup a msg request now writer s
              (joined o, (KeyStore.find_and_consume_key id store).1) in
          served.0 ≡ success frame → IsServed msg store served
    key_looked_up-IsServed id read none found ran = cc
    key_looked_up-IsServed id read (some none) found ran = cc
    key_looked_up-IsServed id read (some (some key)) found ran =
        configured_again-IsServed id key read found (configure_common backend msg.spec a) ran

    key_id_read-IsServed :
        (o : Option (ℕ × Bytes))
        → ser.read_u64 msg.mode_data ≡ o
        → let served = key_id_read backend store_lookup a msg request now writer store s o in
          served.0 ≡ success frame → IsServed msg store served
    unfolding store_lookup
    key_id_read-IsServed none read ran = cc
    key_id_read-IsServed (some (id, [])) read ran = key_looked_up-IsServed id read _ refl ran
    key_id_read-IsServed (some (id, b ∷ rest)) read ran =
        let (empty, same) = passed (not (is_empty (b ∷ rest))) _ _ _ _ frame ran in
        absurd (ground (arith, empty))

  process-IsServed :
      (msg : RequestHandshakeBegin) (request : Bytes) (now : ℕ) (writer : FrameWriter)
      (store : QixKeyStore) (s : Session) (frame : Bytes)
      → (process backend store_lookup msg request now writer store s).0 ≡ success frame
      → IsServed msg store (process backend store_lookup msg request now writer store s)
  unfolding process
  process-IsServed msg request now writer store s frame ran =
      let (empty, first) = passed (not (is_empty msg.mode_ephemeral)) _ _ _ _ frame ran in
      let ran1 = sym (ap (λ (t : Result × QixKeyStore × Session). t.0) first) ∙ ran in
      let chosen = configure_common backend msg.spec (default_common backend) in
      let (fine, second) = passed (any chosen.0) _ _ _ _ frame ran1 in
      let ran2 = sym (ap (λ (t : Result × QixKeyStore × Session). t.0) second) ∙ ran1 in
      subst (IsServed msg store) (sym (first ∙ second)) (
        key_id_read-IsServed msg request now writer store s frame chosen.1
          (ser.read_u64 msg.mode_data) refl ran2)

  -- Any property of the store that a lookup keeps is kept by a request.
  module _ (P : QixKeyStore → Type 0)
      (keeps : (id : ℕ) (store : QixKeyStore)
        → P store
        → P (KeyStore.find_and_consume_key id store).1)
      (msg : RequestHandshakeBegin) (request : Bytes) (now : ℕ) (writer : FrameWriter)
      (s : Session) where
    key_looked_up_keeps :
        (a : Common) (o : Option SecureBuffer) (store : QixKeyStore)
        → P store
        → P (key_looked_up backend store_lookup a msg request now writer s (o, store)).1
    key_looked_up_keeps a none store h = h
    key_looked_up_keeps a (some key) store h =
        subst P
          (sym (
            configured_again-keys msg request now writer store s [] a key store
              (configure_common backend msg.spec a)))
          h

    key_id_read_keeps :
        (a : Common) (o : Option (ℕ × Bytes)) (store : QixKeyStore)
        → P store
        → P (key_id_read backend store_lookup a msg request now writer store s o).1
    unfolding store_lookup
    key_id_read_keeps a none store h = h
    key_id_read_keeps a (some (id, [])) store h =
        key_looked_up_keeps a (joined (KeyStore.find_and_consume_key id store).0)
          (KeyStore.find_and_consume_key id store).1 (keeps id store h)
    key_id_read_keeps a (some (id, b ∷ rest)) store h =
        let more : not (is_empty (b ∷ rest)) ≡ true = ground arith in rw more h

    process_keeps :
        (store : QixKeyStore)
        → P store
        → P (process backend store_lookup msg request now writer store s).1
    unfolding process
    process_keeps store h = elim (Bool-cases (is_empty msg.mode_ephemeral)) [
      | inr e ↦ rw e h
      | inl e ↦
          let chosen = configure_common backend msg.spec (default_common backend) in
          rw e (elim (Bool-cases (any chosen.0)) [
            | inl bad ↦ rw bad h
            | inr fine ↦ rw fine (key_id_read_keeps chosen.1 (ser.read_u64 msg.mode_data) store h)
          ])
    ]

  -- What happens to a store that a responder serves from.
  pub data Step : Type 0 where
    stored : Operation → Step
    requested : RequestHandshakeBegin → Bytes → ℕ → FrameWriter → Session → Step

  pub after_step : Step → QixKeyStore → QixKeyStore
  after_step (stored operation) store = after operation store
  after_step (requested msg request now writer s) store =
      (process backend store_lookup msg request now writer store s).1

  pub run_steps : List Step → QixKeyStore → QixKeyStore
  run_steps [] store = store
  run_steps (step ∷ steps) store = run_steps steps (after_step step store)

  -- No frame brings the id.
  abbrev pub IsSparing : ℕ → Step → Type 0
  IsSparing id (stored operation) = Spares id operation
  IsSparing id (requested msg request now writer s) = Unit {0}

  run_steps-Lacks :
      (id : ℕ) (steps : List Step) (store : QixKeyStore)
      → All (IsSparing id) steps
      → Lacks id store.key_map
      → Lacks id (run_steps steps store).key_map
  unfolding run_steps after_step
  run_steps-Lacks id [] store new h = h
  run_steps-Lacks id (stored operation ∷ steps) store (spared, more) h =
      run_steps-Lacks id steps (after operation store) more
        (after-Lacks id operation store spared h)
  run_steps-Lacks id (requested msg request now writer s ∷ steps) store (spared, more) h =
      run_steps-Lacks id steps _ more (
        process_keeps (λ (t : QixKeyStore). Lacks id t.key_map) (find_and_consume_key-Lacks id) msg
          request now writer s store h)

  -- A distributed key serves one handshake, until its id is brought again. Once a responder whose keys
  -- are in a QIX store in order has replied to a request for the key of an id, it replies to no
  -- request for that id, such as the same one, after any sequence of operations of the store and
  -- requests in which no frame brings the id.
  pub served_once :
      (id : ℕ) (msg msg2 : RequestHandshakeBegin) (request request2 : Bytes) (now now2 : ℕ)
      (writer writer2 : FrameWriter) (store : QixKeyStore) (s s2 : Session) (frame frame2 : Bytes)
      (between : List Step)
      → IsStore store
      → ser.read_u64 msg.mode_data ≡ some (id, [])
      → (process backend store_lookup msg request now writer store s).0 ≡ success frame
      → All (IsSparing id) between
      → ser.read_u64 msg2.mode_data ≡ some (id, [])
      → (process backend store_lookup msg2 request2 now2 writer2
          (run_steps between (process backend store_lookup msg request now writer store s).1)
          s2).0
        ≢ success frame2
  unfolding IsServed
  served_once id msg msg2 request request2 now now2 writer writer2 store s s2 frame frame2 between V
        names ran spared names2 ran2 =
      let (id1, key, read, found, left) =
        process-IsServed msg request now writer store s frame ran in
      let (id2, key2, read2, found2, left2) =
        process-IsServed msg2 request2 now2 writer2 _ s2 frame2 ran2 in
      let same1 : id1 ≡ id = cc in
      let same2 : id2 ≡ id = cc in
      let gone =
        subst (λ (i : ℕ). Lacks i (KeyStore.find_and_consume_key id1 store).1.key_map) same1
          (taken-Lacks id1 (some key) store V found) in
      let left_without = subst (λ (t : QixKeyStore). Lacks id t.key_map) (sym left) gone in
      lacking-taken id (some key2) _ (run_steps-Lacks id between _ spared left_without) (
        subst
          (λ (i : ℕ).
            (KeyStore.find_and_consume_key i
              (run_steps between (process backend store_lookup msg request now writer store s).1)).0
            ≡ some (some key2))
          same2 found2)
