-- ===== src/Qix/KeyStore/Fresh.antt =====
-- The store keeps its keys in order and within its bound.
use ssp21_cpp.Base.{
  ℕ, suc, ◌≤◌, ◌<◌, ◌≡◌, refl, ap, sym, ◌∙◌, inl, inr, Bool-cases, List, [], ◌∷◌, Option, none,
  some, All, arith, length, ltb, ltb-false, ltb→lt, le→ltb, ◌==◌, ==_iff, ==_distinct,
}
use mathlib.Core.Path.{subst}
use ssp21_cpp.Qix.{QixFrame, KeyRecord, make_record}
use ssp21_cpp.Qix.KeyStore.{
  QixKeyStore, make, put, last, find, erase, backward, discard_oldest, add_key, consumed,
  consume_key, found, find_and_consume_key,
}

-- The ids are above a bound, and increase.
abbrev pub IsAbove : ℕ → KeyRecord → Type 0
IsAbove id r = id < r.id

abbrev pub IsSorted : List KeyRecord → Type 0
IsSorted [] = Unit {0}
IsSorted (x ∷ xs) = All (IsAbove x.id) xs × IsSorted xs

pub record IsStore (store : QixKeyStore) : Type 0 where
  pub sorted : IsSorted store.key_map
  pub bounded : length store.key_map ≤ store.max_cached_keys

weaken-IsAbove :
    (low high : ℕ) (xs : List KeyRecord) → low < high → All (IsAbove high) xs → All (IsAbove low) xs
weaken-IsAbove low high [] le h = tt
weaken-IsAbove low high (x ∷ xs) le (p, h) = (omega (arith, le, p), weaken-IsAbove low high xs le h)

put-IsAbove :
    (low : ℕ) (r : KeyRecord) (xs : List KeyRecord)
    → low < r.id
    → All (IsAbove low) xs
    → All (IsAbove low) (put r xs)
unfolding put
put-IsAbove low r [] le h = (le, tt)
put-IsAbove low r (x ∷ xs) le (p, h) = elim (Bool-cases (ltb r.id x.id)) [
  | inl a ↦ rw a (le, (p, h))
  | inr a ↦ elim (Bool-cases (r.id == x.id)) [
    | inl b ↦ rw (a, b) (le, h)
    | inr b ↦ rw (a, b) (p, put-IsAbove low r xs le h)
  ]
]

put-IsSorted : (r : KeyRecord) (xs : List KeyRecord) → IsSorted xs → IsSorted (put r xs)
unfolding put
put-IsSorted r [] S = (tt, tt)
put-IsSorted r (x ∷ xs) (above, S) = elim (Bool-cases (ltb r.id x.id)) [
  | inl a ↦
      let less = ltb→lt r.id x.id a in
      rw a ((less, weaken-IsAbove r.id x.id xs less above), (above, S))
  | inr a ↦ elim (Bool-cases (r.id == x.id)) [
    | inl b ↦
        rw (a, b) (subst (λ (id : ℕ). All (IsAbove id) xs) (sym ((==_iff r.id x.id).0 b)) above, S)
    | inr b ↦
        let more : x.id < r.id = omega (arith, ltb-false r.id x.id a, ==_distinct r.id x.id b) in
        rw (a, b) (put-IsAbove x.id r xs more above, put-IsSorted r xs S)
  ]
]

length-put : (r : KeyRecord) (xs : List KeyRecord) → length (put r xs) ≤ suc (length xs)
unfolding put
length-put r [] = omega arith
length-put r (x ∷ xs) =
    let rest = length-put r xs in
    elim (Bool-cases (ltb r.id x.id)) [
      | inl a ↦ rw a (omega arith)
      | inr a ↦ elim (Bool-cases (r.id == x.id)) [
        | inl b ↦ rw (a, b) (omega arith)
        | inr b ↦ rw (a, b) (omega (arith, rest))
      ]
    ]

discard_oldest-IsStore :
    (max : ℕ) (xs : List KeyRecord)
    → IsSorted xs
    → length xs ≤ suc max
    → IsStore (record { max_cached_keys = max; key_map = discard_oldest max xs })
discard_oldest-IsStore max [] S le =
    rw (le→ltb max 0 (omega arith)) record { sorted = tt; bounded = omega arith }
discard_oldest-IsStore max (x ∷ xs) (above, S) le = elim (Bool-cases (ltb max (length (x ∷ xs)))) [
  | inl long ↦ rw long record { sorted = S; bounded = omega (arith, le) }
  | inr fits ↦
      rw fits record { sorted = (above, S); bounded = ltb-false max (length (x ∷ xs)) fits }
]

record IsKept (max : ℕ) (xs : List KeyRecord) : Type 0 where
  sorted : IsSorted xs
  bounded : length xs ≤ max

backward-IsKept :
    (max id : ℕ) (o : Option KeyRecord) (xs : List KeyRecord)
    → IsKept max xs
    → IsKept max (backward id o xs)
backward-IsKept max id none xs K = K
backward-IsKept max id (some greatest) xs K = elim (Bool-cases (ltb id greatest.id)) [
  | inl a ↦ rw a record { sorted = tt; bounded = omega arith }
  | inr a ↦ rw a K
]

add_key-IsStore :
    (frame : QixFrame) (store : QixKeyStore) → IsStore store → IsStore (add_key frame store)
unfolding add_key
add_key-IsStore frame store V =
    let r = make_record frame.key_id frame.key_data in
    let kept = backward frame.key_id (last store.key_map) store.key_map in
    let K =
      backward-IsKept store.max_cached_keys frame.key_id (last store.key_map) store.key_map
        (record { sorted = V.sorted; bounded = V.bounded }) in
    discard_oldest-IsStore store.max_cached_keys (put r kept) (put-IsSorted r kept K.sorted)
      (omega (arith, length-put r kept, K.bounded))

erase-IsAbove :
    (low id : ℕ) (xs : List KeyRecord) → All (IsAbove low) xs → All (IsAbove low) (erase id xs)
unfolding erase
erase-IsAbove low id [] h = tt
erase-IsAbove low id (x ∷ xs) (p, h) = elim (Bool-cases (x.id == id)) [
  | inl a ↦ rw a h
  | inr a ↦ rw a (p, erase-IsAbove low id xs h)
]

erase-IsKept : (id : ℕ) (xs : List KeyRecord) → IsSorted xs → IsKept (length xs) (erase id xs)
unfolding erase
erase-IsKept id [] S = record { sorted = tt; bounded = omega arith }
erase-IsKept id (x ∷ xs) (above, S) = elim (Bool-cases (x.id == id)) [
  | inl a ↦ rw a record { sorted = S; bounded = omega arith }
  | inr a ↦
      let rest = erase-IsKept id xs S in
      rw a record {
        sorted = (erase-IsAbove x.id id xs above, rest.sorted);
        bounded = omega (arith, rest.bounded);
      }
]

-- Any record but the greatest has a smaller id, and is in the map before it.
last-greatest :
    (xs : List KeyRecord) (r : KeyRecord)
    → IsSorted xs
    → last xs ≡ some r
    → All (λ (x : KeyRecord). x.id ≤ r.id) xs
unfolding last
last-greatest [] r S e = cc
last-greatest (x ∷ []) r S e =
    let same : x ≡ r = cc in (omega (arith, ap (λ (k : KeyRecord). k.id) same), tt)
last-greatest (x ∷ y ∷ xs) r ((less, above), S) e =
    let rest = last-greatest (y ∷ xs) r S e in (omega (arith, less, rest.0), rest)

pub All-erase :
    (P : KeyRecord → Type 0) (id : ℕ) (xs : List KeyRecord) → All P xs → All P (erase id xs)
unfolding erase
All-erase P id [] h = tt
All-erase P id (x ∷ xs) (p, h) = elim (Bool-cases (x.id == id)) [
  | inl a ↦ rw a h
  | inr a ↦ rw a (p, All-erase P id xs h)
]

consumed-IsStore :
    (store : QixKeyStore) (id : ℕ)
    → IsStore store
    → IsStore (record store { key_map = erase id store.key_map })
consumed-IsStore store id V =
    let K = erase-IsKept id store.key_map V.sorted in
    record { sorted = K.sorted; bounded = omega (arith, K.bounded, V.bounded) }

consume_key-IsStore : (store : QixKeyStore) → IsStore store → IsStore (consume_key store).1
unfolding consume_key
consume_key-IsStore store V = by_last (last store.key_map)
  where
    by_last : (o : Option KeyRecord) → IsStore (consumed store o).1
    by_last none = V
    by_last (some r) = consumed-IsStore store r.id V

find_and_consume_key-IsStore :
    (id : ℕ) (store : QixKeyStore) → IsStore store → IsStore (find_and_consume_key id store).1
unfolding find_and_consume_key
find_and_consume_key-IsStore id store V = by_entry (find id store.key_map)
  where
    by_entry : (o : Option KeyRecord) → IsStore (found id store o).1
    by_entry none = V
    by_entry (some r) = consumed-IsStore store id V

-- A store that starts empty, or is in order, stays in order under each operation: its ids increase,
-- so that none is kept twice, and it holds at most its maximum of keys.
pub operations-IsStore :
    (store : QixKeyStore)
    → IsStore store
    → IsStore (make store.max_cached_keys)
      × ((frame : QixFrame) → IsStore (add_key frame store))
      × IsStore (consume_key store).1
      × ((id : ℕ) → IsStore (find_and_consume_key id store).1)
unfolding make
operations-IsStore store V = (
  record { sorted = tt; bounded = omega arith },
  λ frame. add_key-IsStore frame store V,
  consume_key-IsStore store V,
  λ id. find_and_consume_key-IsStore id store V,
)

-- From a store in order, `consume_key` gives the record with the greatest id.
consume_key-greatest :
    (store : QixKeyStore) (r : KeyRecord)
    → IsStore store
    → (consume_key store).0 ≡ some r
    → All (λ (x : KeyRecord). x.id ≤ r.id) store.key_map
unfolding consume_key
consume_key-greatest store r V e = by_last (last store.key_map) refl e
  where
    by_last :
        (o : Option KeyRecord)
        → last store.key_map ≡ o
        → (consumed store o).0 ≡ some r
        → All (λ (x : KeyRecord). x.id ≤ r.id) store.key_map
    by_last none found_last e = cc
    by_last (some s) found_last e = last-greatest store.key_map r V.sorted (found_last ∙ e)
