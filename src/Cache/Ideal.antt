-- ===== src/Cache/Ideal.antt =====
-- An ideal store that never drops an entry, as the specification of cache_backend.py, and runs of
-- timed operations on both.
use cfr_compliance_mcp.Prelude.{
  ℕ, zero, suc, ◌+◌, String, ◌≡◌, Option, none, some, List, [], ◌∷◌, ltb, if◌then◌else◌, ◌==◌,
}
use cfr_compliance_mcp.Prelude.Int.{ℤ, pos, negsuc}
use cfr_compliance_mcp.Prelude.Dict.{lookup, string_eq, Distinct}
use cfr_compliance_mcp.Cache.Backend.{
  CacheEntry, Backend, CacheResult, done, cache_error, get, set, delete, clear, evict_expired,
}

-- What a reader at a time may still see of an entry.
abbrev pub live : ℕ → Option CacheEntry → Option CacheEntry
live now none = none
live now (some e) = if ltb e.expires_at now then none else some e

abbrev pub value_of : Option CacheEntry → Option String
value_of none = none
value_of (some e) = some e.value

pub data Op : Type 0 where
  read : String → Op
  write : String → String → Option ℤ → Op
  erase : String → Op
  erase_all : Op
  evict : Op

pub data Reply : Type 0 where
  value : Option String → Reply
  raised : Reply
  quiet : Reply

abbrev pub write_reply : CacheResult (Unit {0}) × Backend → Reply × Backend
write_reply (done _, b) = (quiet, b)
write_reply (cache_error, b) = (raised, b)

unfoldable pub step : ℕ → Op → Backend → Reply × Backend
step now (read k) b = let (v, b') = get k now b in (value v, b')
step now (write k v ttl) b = write_reply (set k v ttl now b)
step now (erase k) b = (quiet, delete k b)
step now erase_all b = (quiet, clear b)
step now evict b = (quiet, (evict_expired now b).1)

-- The ideal store: every entry ever written and not overwritten or deleted, expired or not.
abbrev pub Ideal : Type 0
Ideal = String → Option CacheEntry

abbrev pub write_ideal : String → String → ℤ → ℕ → Ideal → Reply × Ideal
write_ideal k v (negsuc n) now s = (raised, s)
write_ideal k v (pos zero) now s = (raised, s)
write_ideal k v (pos (suc n)) now s =
    (quiet, λ j. if k == j then some (record { value = v; expires_at = now + suc n }) else s j)

abbrev pub ttl_of : ℤ → Option ℤ → ℤ
ttl_of default none = default
ttl_of default (some ttl) = ttl

unfoldable pub ideal_step : ℤ → ℕ → Op → Ideal → Reply × Ideal
ideal_step default now (read k) s = (value (value_of (live now (s k))), s)
ideal_step default now (write k v ttl) s = write_ideal k v (ttl_of default ttl) now s
ideal_step default now (erase k) s = (quiet, λ j. if k == j then none else s j)
ideal_step default now erase_all s = (quiet, λ j. none)
ideal_step default now evict s = (quiet, s)

-- The replies to a list of operations, each some ticks after the one before it.
unfoldable pub replies : ℕ → List (ℕ × Op) → Backend → List Reply
replies now [] b = []
replies now ((wait, op) ∷ ops) b =
    let (r, b') = step (now + wait) op b in r ∷ replies (now + wait) ops b'

unfoldable pub ideal_replies : ℤ → ℕ → List (ℕ × Op) → Ideal → List Reply
ideal_replies default now [] s = []
ideal_replies default now ((wait, op) ∷ ops) s =
    let (r, s') = ideal_step default (now + wait) op s in
    r ∷ ideal_replies default (now + wait) ops s'

-- At a time, a reader sees the same in both.
pub record Same (default : ℤ) (now : ℕ) (b : Backend) (s : Ideal) : Type 0 where
  pub views : (k : String) → live now (lookup k b.store) ≡ live now (s k)
  pub ttl : b.default_ttl_seconds ≡ default
  pub distinct : Distinct b.store
