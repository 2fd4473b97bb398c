-- ===== src/Qix/KeyStore/Runs.antt =====
-- What a store gives out over any sequence of its operations.
use ssp21_cpp.Base.{
  ℕ, ◌≡◌, ◌≢◌, refl, ap, sym, ◌∙◌, inl, inr, Bool-cases, List, [], ◌∷◌, Option, none, some, All,
  arith, length, ltb, ◌==◌, ==_iff, ==_distinct,
}
use ssp21_cpp.Session.{SecureBuffer}
use ssp21_cpp.Qix.{QixFrame, KeyRecord, make_record}
use ssp21_cpp.Qix.KeyStore.{
  QixKeyStore, put, last, find, erase, backward, discard_oldest, add_key, consumed, consume_key,
  found, find_and_consume_key,
}
use ssp21_cpp.Qix.KeyStore.Fresh.{IsAbove, IsSorted, IsStore, All-erase}

-- The operations that change a store.
pub data Operation : Type 0 where
  added : QixFrame → Operation
  key_consumed : Operation
  looked_up : ℕ → Operation

pub after : Operation → QixKeyStore → QixKeyStore
after (added frame) store = add_key frame store
after key_consumed store = (consume_key store).1
after (looked_up id) store = (find_and_consume_key id store).1

pub run : List Operation → QixKeyStore → QixKeyStore
run [] store = store
run (operation ∷ operations) store = run operations (after operation store)

abbrev id_of : Option KeyRecord → Option ℕ
id_of none = none
id_of (some r) = some r.id

abbrev id_if : ℕ → Option (Option SecureBuffer) → Option ℕ
id_if id none = none
id_if id (some key) = some id

-- The id that an operation gives out, or `none`.
unfoldable pub given : Operation → QixKeyStore → Option ℕ
given (added frame) store = none
given key_consumed store = id_of (consume_key store).0
given (looked_up id) store = id_if id (find_and_consume_key id store).0

-- Not the arrival of a frame that brings the id.
abbrev pub Spares : ℕ → Operation → Type 0
Spares id (added frame) = frame.key_id ≢ id
Spares id key_consumed = Unit {0}
Spares id (looked_up other) = Unit {0}

-- No record of the map has the id.
abbrev pub Lacks : ℕ → List KeyRecord → Type 0
Lacks id xs = All (λ (x : KeyRecord). x.id ≢ id) xs

above-Lacks : (id low : ℕ) (xs : List KeyRecord) → id ≡ low → All (IsAbove low) xs → Lacks id xs
above-Lacks id low [] e h = tt
above-Lacks id low (x ∷ xs) e (p, h) =
    (λ same. absurd (omega (arith, same, e, p)), above-Lacks id low xs e h)

erase-Lacks : (id : ℕ) (xs : List KeyRecord) → IsSorted xs → Lacks id (erase id xs)
unfolding erase
erase-Lacks id [] S = tt
erase-Lacks id (x ∷ xs) (above, S) = elim (Bool-cases (x.id == id)) [
  | inl a ↦ rw a (above-Lacks id x.id xs (sym ((==_iff x.id id).0 a)) above)
  | inr a ↦ rw a (==_distinct x.id id a, erase-Lacks id xs S)
]

pub find_lacking : (id : ℕ) (xs : List KeyRecord) → Lacks id xs → find id xs ≡ none
unfolding find
find_lacking id [] h = refl
find_lacking id (x ∷ xs) (other, h) = elim (Bool-cases (x.id == id)) [
  | inl a ↦ absurd (other ((==_iff x.id id).0 a))
  | inr a ↦ rw a (find_lacking id xs h)
]

last-Lacks :
    (id : ℕ) (xs : List KeyRecord) (r : KeyRecord) → Lacks id xs → last xs ≡ some r → r.id ≢ id
unfolding last
last-Lacks id [] r h e = cc
last-Lacks id (x ∷ []) r (other, h) e =
    let same : x ≡ r = cc in λ i. other (ap (λ (k : KeyRecord). k.id) same ∙ i)
last-Lacks id (x ∷ y ∷ xs) r (other, h) e = last-Lacks id (y ∷ xs) r h e

put-Lacks :
    (id : ℕ) (r : KeyRecord) (xs : List KeyRecord) → r.id ≢ id → Lacks id xs → Lacks id (put r xs)
unfolding put
put-Lacks id r [] new h = (new, tt)
put-Lacks id r (x ∷ xs) new (other, h) = elim (Bool-cases (ltb r.id x.id)) [
  | inl a ↦ rw a (new, (other, h))
  | inr a ↦ elim (Bool-cases (r.id == x.id)) [
    | inl b ↦ rw (a, b) (new, h)
    | inr b ↦ rw (a, b) (other, put-Lacks id r xs new h)
  ]
]

discard_oldest-Lacks :
    (id max : ℕ) (xs : List KeyRecord) → Lacks id xs → Lacks id (discard_oldest max xs)
discard_oldest-Lacks id max [] h = elim (Bool-cases (ltb max 0)) [
  | inl a ↦ rw a tt
  | inr a ↦ rw a tt
]
discard_oldest-Lacks id max (x ∷ xs) (other, h) = elim (Bool-cases (ltb max (length (x ∷ xs)))) [
  | inl a ↦ rw a h
  | inr a ↦ rw a (other, h)
]

backward-Lacks :
    (id key_id : ℕ) (o : Option KeyRecord) (xs : List KeyRecord)
    → Lacks id xs
    → Lacks id (backward key_id o xs)
backward-Lacks id key_id none xs h = h
backward-Lacks id key_id (some greatest) xs h = elim (Bool-cases (ltb key_id greatest.id)) [
  | inl a ↦ rw a tt
  | inr a ↦ rw a h
]

found-Lacks :
    (id other : ℕ) (store : QixKeyStore) (o : Option KeyRecord)
    → Lacks id store.key_map
    → Lacks id (found other store o).1.key_map
found-Lacks id other store none h = h
found-Lacks id other store (some r) h = All-erase _ other store.key_map h

consumed-Lacks :
    (id : ℕ) (store : QixKeyStore) (o : Option KeyRecord)
    → Lacks id store.key_map
    → Lacks id (consumed store o).1.key_map
consumed-Lacks id store none h = h
consumed-Lacks id store (some r) h = All-erase _ r.id store.key_map h

pub after-Lacks :
    (id : ℕ) (operation : Operation) (store : QixKeyStore)
    → Spares id operation
    → Lacks id store.key_map
    → Lacks id (after operation store).key_map
unfolding after add_key consume_key find_and_consume_key
after-Lacks id (added frame) store new h = discard_oldest-Lacks id store.max_cached_keys _ (
    put-Lacks id (make_record frame.key_id frame.key_data) _ new
      (backward-Lacks id frame.key_id (last store.key_map) store.key_map h))
after-Lacks id key_consumed store new h = consumed-Lacks id store (last store.key_map) h
after-Lacks id (looked_up other) store new h =
    found-Lacks id other store (find other store.key_map) h

pub run-Lacks :
    (id : ℕ) (operations : List Operation) (store : QixKeyStore)
    → All (Spares id) operations
    → Lacks id store.key_map
    → Lacks id (run operations store).key_map
unfolding run
run-Lacks id [] store new h = h
run-Lacks id (operation ∷ operations) store (new, more) h =
    run-Lacks id operations (after operation store) more (after-Lacks id operation store new h)

-- What is given out is no longer there.
pub given-Lacks :
    (id : ℕ) (operation : Operation) (store : QixKeyStore)
    → IsStore store
    → given operation store ≡ some id
    → Lacks id (after operation store).key_map
unfolding given after consume_key find_and_consume_key
given-Lacks id (added frame) store V e = cc
given-Lacks id key_consumed store V e = by_last (last store.key_map) e
  where
    by_last :
        (o : Option KeyRecord)
        → id_of (consumed store o).0 ≡ some id
        → Lacks id (consumed store o).1.key_map
    by_last none e = cc
    by_last (some r) e =
        let same : r.id ≡ id = cc in rw same (erase-Lacks id store.key_map V.sorted)
given-Lacks id (looked_up other) store V e = by_entry (find other store.key_map) e
  where
    by_entry :
        (o : Option KeyRecord)
        → id_if other (found other store o).0 ≡ some id
        → Lacks id (found other store o).1.key_map
    by_entry none e = cc
    by_entry (some r) e =
        let same : other ≡ id = cc in rw same (erase-Lacks id store.key_map V.sorted)

pub lacking-given :
    (id : ℕ) (operation : Operation) (store : QixKeyStore)
    → Lacks id store.key_map
    → given operation store ≢ some id
unfolding given consume_key find_and_consume_key
lacking-given id (added frame) store h e = cc
lacking-given id key_consumed store h e = by_last (last store.key_map) refl e
  where
    by_last : (o : Option KeyRecord) → last store.key_map ≡ o → id_of (consumed store o).0 ≢ some id
    by_last none found_last e = cc
    by_last (some r) found_last e =
        let same : r.id ≡ id = cc in absurd (last-Lacks id store.key_map r h found_last same)
lacking-given id (looked_up other) store h e = by_entry (find other store.key_map) refl e
  where
    by_entry :
        (o : Option KeyRecord)
        → find other store.key_map ≡ o
        → id_if other (found other store o).0 ≢ some id
    by_entry none entry e = cc
    by_entry (some r) entry e =
        let same : other ≡ id = cc in
        let gone : find other store.key_map ≡ none = rw same (find_lacking id store.key_map h) in cc

-- The lookup alone.
pub find_and_consume_key-Lacks :
    (id other : ℕ) (store : QixKeyStore)
    → Lacks id store.key_map
    → Lacks id (find_and_consume_key other store).1.key_map
unfolding after
find_and_consume_key-Lacks id other store h = after-Lacks id (looked_up other) store tt h

pub taken-Lacks :
    (id : ℕ) (key : Option SecureBuffer) (store : QixKeyStore)
    → IsStore store
    → (find_and_consume_key id store).0 ≡ some key
    → Lacks id (find_and_consume_key id store).1.key_map
unfolding given after
taken-Lacks id key store V e = given-Lacks id (looked_up id) store V (ap (id_if id) e)

pub lacking-taken :
    (id : ℕ) (key : Option SecureBuffer) (store : QixKeyStore)
    → Lacks id store.key_map
    → (find_and_consume_key id store).0 ≢ some key
unfolding given
lacking-taken id key store h e = lacking-given id (looked_up id) store h (ap (id_if id) e)

-- A key is given out once, until it is brought again. From a store in order, an id that
-- `consume_key` or `find_and_consume_key` gives out is not given out by either of them after any
-- sequence of operations, frames for other ids included, in which no frame brings that id.
pub given_once :
    (id : ℕ) (operation later : Operation) (between : List Operation) (store : QixKeyStore)
    → IsStore store
    → given operation store ≡ some id
    → All (Spares id) between
    → given later (run between (after operation store)) ≢ some id
given_once id operation later between store V first spared =
    lacking-given id later (run between (after operation store))
      (run-Lacks id between (after operation store) spared (given-Lacks id operation store V first))
