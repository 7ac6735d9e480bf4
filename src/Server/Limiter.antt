-- ===== src/Server/Limiter.antt =====
-- `_RateLimiter` of src/cfr_compliance_mcp/clients/http_client.py. Times are milliseconds of the
-- monotonic clock. The lock makes `acquire` one step; what the clock shows at its four readings is
-- given to it, and the sleep shows in the third.
use cfr_compliance_mcp.Prelude.{
  ℕ, ◌+◌, ◌-◌, List, [], ◌∷◌, ◌++◌, length, leb, ltb, if◌then◌else◌, ◌≡◌, refl,
}

abbrev pub window : ℕ
window = 60000

-- `time.monotonic()` at the first eviction, at the computation of the sleep, at the second eviction
-- and at the end.
pub record Readings : Type 0 where
  pub first : ℕ
  pub second : ℕ
  pub third : ℕ
  pub last : ℕ

-- `_evict_expired`: `t < now - 60.0` is `t + 60.0 < now`.
unfoldable pub evict_expired : ℕ → List ℕ → List ℕ
evict_expired now [] = []
evict_expired now (t ∷ ts) =
    let rest = evict_expired now ts in if ltb (t + window) now then rest else t ∷ ts

-- `60.0 - (now - timestamps[0])`, or 0 where nothing is slept.
unfoldable pub sleep_for : ℕ → List ℕ → ℕ
sleep_for now [] = 0
sleep_for now (t ∷ ts) = (t + window) - now

-- The timestamps after `acquire`; the last of them is the time at which the caller proceeds.
unfoldable pub acquire : ℕ → Readings → List ℕ → List ℕ
acquire max_per_minute r timestamps =
    let kept = evict_expired r.first timestamps in
    if leb max_per_minute (length kept)
    then evict_expired r.third kept ++ r.last ∷ []
    else kept ++ r.last ∷ []

-- With one call a minute: a call that wakes at the very end of the minute does not see the first
-- one expire, and two more at the same time pass with it.
abbrev at_boundary : Readings
at_boundary = record { first = 60000; second = 60000; third = 60000; last = 60000 }

boundary_burst : acquire 1 at_boundary (acquire 1 at_boundary (0 ∷ [])) ≡ 0 ∷ 60000 ∷ 60000 ∷ []
unfolding acquire evict_expired
boundary_burst = refl
