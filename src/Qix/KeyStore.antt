-- ===== src/Qix/KeyStore.antt =====
-- cpp/libs/qix/src/QIXKeyStore.cpp. The map is the list of its records, in the order of their ids.
pub mod Fresh
pub mod Runs
use ssp21_cpp.Base.{
  ℕ, suc, Bool, true, false, ◌&&◌, List, [], ◌∷◌, Option, none, some, length, ltb, ◌==◌,
  if◌then◌else◌,
}
use ssp21_cpp.Session.{SecureBuffer}
use ssp21_cpp.Qix.{QixFrame, KeyRecord, make_record}

pub record QixKeyStore : Type 0 where
  pub max_cached_keys : ℕ
  pub key_map : List KeyRecord

unfoldable pub make : ℕ → QixKeyStore
make max_cached_keys = record { max_cached_keys = max_cached_keys; key_map = [] }

-- `key_map[record.id] = record`
pub put : KeyRecord → List KeyRecord → List KeyRecord
put r [] = r ∷ []
put r (x ∷ xs) =
    let rest = put r xs in
    if ltb r.id x.id then r ∷ x ∷ xs else if r.id == x.id then r ∷ xs else x ∷ rest

-- `key_map.rbegin()->second`
unfoldable pub last : List KeyRecord → Option KeyRecord
last [] = none
last (x ∷ []) = some x
last (x ∷ y ∷ xs) = last (y ∷ xs)

-- `key_map.find(key_id)`
unfoldable pub find : ℕ → List KeyRecord → Option KeyRecord
find key_id [] = none
find key_id (x ∷ xs) = let rest = find key_id xs in if x.id == key_id then some x else rest

-- `key_map.erase(key_id)`
unfoldable pub erase : ℕ → List KeyRecord → List KeyRecord
erase key_id [] = []
erase key_id (x ∷ xs) = let rest = erase key_id xs in if x.id == key_id then xs else x ∷ rest

-- `key_map.erase(key_map.begin())`
abbrev erase_first : List KeyRecord → List KeyRecord
erase_first [] = []
erase_first (x ∷ xs) = xs

-- The map, cleared where the id goes backward.
abbrev pub backward : ℕ → Option KeyRecord → List KeyRecord → List KeyRecord
backward key_id none key_map = key_map
backward key_id (some greatest) key_map = if ltb key_id greatest.id then [] else key_map

abbrev pub discard_oldest : ℕ → List KeyRecord → List KeyRecord
discard_oldest max_cached_keys key_map =
    if ltb max_cached_keys (length key_map) then erase_first key_map else key_map

pub add_key : QixFrame → QixKeyStore → QixKeyStore
unfolding put last
add_key frame store =
    let kept = backward frame.key_id (last store.key_map) store.key_map in
    record store {
      key_map =
          discard_oldest store.max_cached_keys (put (make_record frame.key_id frame.key_data) kept);
    }

abbrev pub consumed : QixKeyStore → Option KeyRecord → Option KeyRecord × QixKeyStore
consumed store none = (none, store)
consumed store (some ret) = (some ret, record store { key_map = erase ret.id store.key_map })

unfoldable pub consume_key : QixKeyStore → Option KeyRecord × QixKeyStore
unfolding last erase
consume_key store = consumed store (last store.key_map)

-- The key of a record that is found, which may be null, or `none` for the null pointer.
abbrev pub found : ℕ → QixKeyStore → Option KeyRecord → Option (Option SecureBuffer) × QixKeyStore
found key_id store none = (none, store)
found key_id store (some entry) =
    (some entry.key, record store { key_map = erase key_id store.key_map })

unfoldable pub find_and_consume_key : ℕ → QixKeyStore → Option (Option SecureBuffer) × QixKeyStore
unfolding find erase
find_and_consume_key key_id store = found key_id store (find key_id store.key_map)
