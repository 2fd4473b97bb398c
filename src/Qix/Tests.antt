-- ===== src/Qix/Tests.antt =====
-- The store and the frames of QIX at work on concrete keys.
use ssp21_cpp.Base.{ℕ, zero, suc, ◌≡◌, ◌≢◌, refl, [], ◌∷◌, Bytes, none, some, arith, length}
use ssp21_cpp.Ser.BigEndian.{big_endian}
use ssp21_cpp.Qix.{QixFrame, Status}
use ssp21_cpp.Qix.KeyStore.{QixKeyStore, make, add_key, consume_key, find_and_consume_key}
use ssp21_cpp.Qix.KeyStore.Fresh.{IsStore, operations-IsStore}
use ssp21_cpp.Qix.KeyStore.Runs.{added, key_consumed, looked_up, after, run, given, given_once}
use ssp21_cpp.Qix.Frames.{QixFrameParser, parse, write}
use ssp21_cpp.Qix.Frames.RoundTrip.{frame_bytes, parse-write}

abbrev replicate : ℕ → Bytes
replicate zero = []
replicate (suc n) = 7 ∷ replicate n

abbrev frame : QixFrame
frame = record { key_id = 5; key_data = replicate 32; status = Status.key_compromised }

abbrev store : QixKeyStore
store = record {
  max_cached_keys = 2;
  key_map = record { id = 3; key = none } ∷ record { id = 5; key = none } ∷ [];
}

store_in_order : IsStore store
store_in_order = record { sorted = ((omega arith, tt), (tt, tt)); bounded = omega arith }

operations-IsStore_example :
    IsStore (make 2)
    × ((f : QixFrame) → IsStore (add_key f store))
    × IsStore (consume_key store).1
    × ((id : ℕ) → IsStore (find_and_consume_key id store).1)
operations-IsStore_example = operations-IsStore store store_in_order

first_given : given key_consumed store ≡ some 5
unfolding given consume_key
first_given = refl

given_once_example :
    given key_consumed
      (run (added (record frame { key_id = 6 }) ∷ looked_up 5 ∷ []) (after key_consumed store))
    ≢ some 5
given_once_example =
    given_once 5 key_consumed key_consumed (added (record frame { key_id = 6 }) ∷ looked_up 5 ∷ [])
      store store_in_order first_given (λ same. absurd (omega (arith, same)), (tt, tt))

abbrev filled_parser : QixFrameParser
filled_parser = record { num_bytes_buffered = 0; buffer = frame_bytes frame }

parse-write_example :
    (length frame.key_data ≡ 32
      → (write frame ≡ some (frame_bytes frame))
        × (frame_bytes frame ≡ frame_bytes frame
            → (parse filled_parser).0 ≡ some (record frame { status = Status.ok })))
    × (length frame.key_data ≢ 32 → write frame ≡ none)
parse-write_example = parse-write frame filled_parser (omega arith)
