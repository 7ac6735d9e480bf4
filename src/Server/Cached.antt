-- ===== src/Server/Cached.antt =====
-- `cached_call` of src/cfr_compliance_mcp/tools/_common.py, on the in-memory cache of
-- cache/cache_backend.py. `encode` and `decode` stand for `json.dumps` and `json.loads`, and `compute`
-- for the callback; the clock is read for the cache's `get` and for its `set`.
use cfr_compliance_mcp.Prelude.{ℕ, String, Option, none, some}
use cfr_compliance_mcp.Prelude.Int.{ℤ}
use cfr_compliance_mcp.Prelude.Dict.{string_eq}
use cfr_compliance_mcp.Cache.Backend as Cache
use cfr_compliance_mcp.Cache.Backend.{Backend}
use cfr_compliance_mcp.Server.Errors.{unexpected}
use cfr_compliance_mcp.Server.Calls.{Client, Returned, error, value, Call}

module _ {A : Type 0} (encode : A → String) (decode : String → Option A) where
  unfoldable pub read_cached : Option A → Returned A
  read_cached none = error unexpected
  read_cached (some a) = value a

  -- The write after a result; an error of the cache is logged and dropped.
  unfoldable pub write_back : String → Option ℤ → ℕ → Returned A → Backend → Backend
  write_back key ttl now (error e) b = b
  write_back key ttl now (value a) b = (Cache.set key (encode a) ttl now b).1

  unfoldable pub cached_or_compute :
      String
      → Option ℤ
      → ℕ
      → Call A
      → Option String × Backend
      → Client
      → Returned A × (Backend × Client)
  cached_or_compute key ttl now compute (some text, b) c = (read_cached (decode text), (b, c))
  cached_or_compute key ttl now compute (none, b) c =
      let out = compute c in (out.0, (write_back key ttl now out.0 b, out.1))

  unfoldable pub cached_call :
      String → Option ℤ → ℕ → ℕ → Call A → Backend × Client → Returned A × (Backend × Client)
  cached_call key ttl read_at write_at compute (b, c) =
      cached_or_compute key ttl write_at compute (Cache.get key read_at b) c
