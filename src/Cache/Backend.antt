-- ===== src/Cache/Backend.antt =====
-- `InMemoryCacheBackend` and `build_cache_key`. Each operation holds the lock for its whole access
-- to the store, so it is one step on the state.
use cfr_compliance_mcp.Prelude.{
  ℕ, zero, suc, ◌+◌, String, Option, none, some, List, [], ◌∷◌, map, ltb, length, join,
  if◌then◌else◌,
}
use cfr_compliance_mcp.Prelude.Int.{ℤ, pos, negsuc}
use cfr_compliance_mcp.Prelude.Dict.{Dict, lookup, insert, remove, string_eq}

pub record CacheEntry : Type 0 where
  pub value : String
  pub expires_at : ℕ

pub record Backend : Type 0 where
  pub default_ttl_seconds : ℤ
  pub store : Dict String CacheEntry

-- `raise CacheError`, or a result.
pub data CacheResult {ℓ} (A : Type ℓ) : Type ℓ where
  done : A → CacheResult A
  cache_error : CacheResult A

unfoldable pub read_entry : String → ℕ → Backend → Option CacheEntry → Option String × Backend
read_entry key now b none = (none, b)
read_entry key now b (some entry) =
    if ltb entry.expires_at now
    then (none, record b { store = remove key b.store })
    else (some entry.value, b)

unfoldable pub get : String → ℕ → Backend → Option String × Backend
unfolding read_entry
get key now b = read_entry key now b (lookup key b.store)

unfoldable pub effective_ttl : Option ℤ → Backend → ℤ
effective_ttl none b = b.default_ttl_seconds
effective_ttl (some ttl) b = ttl

unfoldable pub write_entry : String → String → ℤ → ℕ → Backend → CacheResult (Unit {0}) × Backend
write_entry key value (negsuc n) now b = (cache_error, b)
write_entry key value (pos zero) now b = (cache_error, b)
write_entry key value (pos (suc n)) now b = (
  done tt,
  record b { store = insert key (record { value = value; expires_at = now + suc n }) b.store },
)

-- The default time to live applies where none is given; one that is not positive is an error.
unfoldable pub set : String → String → Option ℤ → ℕ → Backend → CacheResult (Unit {0}) × Backend
unfolding effective_ttl write_entry
set key value ttl now b = write_entry key value (effective_ttl ttl b) now b

unfoldable pub delete : String → Backend → Backend
delete key b = record b { store = remove key b.store }

unfoldable pub clear : Backend → Backend
clear b = record b { store = [] }

unfoldable pub expired_keys : ℕ → Dict String CacheEntry → List String
expired_keys now [] = []
expired_keys now ((k, e) ∷ d) =
    if ltb e.expires_at now then k ∷ expired_keys now d else expired_keys now d

-- `for k in ks: del store[k]`.
unfoldable pub remove_keys : List String → Dict String CacheEntry → Dict String CacheEntry
remove_keys [] d = d
remove_keys (k ∷ ks) d = remove_keys ks (remove k d)

-- Removes what has expired and returns the number of keys removed.
unfoldable pub evict_expired : ℕ → Backend → ℕ × Backend
unfolding expired_keys remove_keys
evict_expired now b =
    let keys = expired_keys now b.store in
    (length keys, record b { store = remove_keys keys b.store })

-- `__len__`.
unfoldable pub size : Backend → ℕ
size b = length b.store

render : Option String → String
render none = "none"
render (some part) = part

-- `build_cache_key`, on parts that `str` has already rendered.
unfoldable pub build_cache_key : List (Option String) → String
unfolding render join
build_cache_key parts = join ":" (map render parts)
