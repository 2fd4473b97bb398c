-- ===== src/Handshake/Qkd/Store.antt =====
-- The store of cpp/libs/qix as the source and the lookup of keys: QIXKeyStore.h implements both.
use ssp21_cpp.Base.{Option, none, some}
use ssp21_cpp.Session.{SecureBuffer}
use ssp21_cpp.Qix.KeyStore
use ssp21_cpp.Qix.KeyStore.{QixKeyStore}
use ssp21_cpp.Handshake.Qkd.{IKeySource, IKeyLookup}

-- The key of an entry may be a null pointer too.
abbrev pub joined : Option (Option SecureBuffer) → Option SecureBuffer
joined none = none
joined (some key) = key

unfoldable pub store_source : IKeySource QixKeyStore
store_source = record { consume_key = KeyStore.consume_key }

unfoldable pub store_lookup : IKeyLookup QixKeyStore
store_lookup = record {
  find_and_consume_key =
      λ key_id store. let r = KeyStore.find_and_consume_key key_id store in (joined r.0, r.1);
}
