-- ===== src/Server/Freshness.antt =====
-- What a second call of a tool gets from the cache: src/cfr_compliance_mcp/tools/_common.py.
use cfr_compliance_mcp.Prelude.{
  ℕ, suc, ◌+◌, ◌≤◌, String, ◌≡◌, refl, ap, ◌∙◌, ◌⊎◌, inl, inr, false, Option, none, some, arith,
  ltb,
}
use cfr_compliance_mcp.Prelude.Int.{ℤ, pos}
use cfr_compliance_mcp.Prelude.Dict.{lookup, insert, string_eq, lookup-insert_self}
use cfr_compliance_mcp.Cache.Backend as Cache
use cfr_compliance_mcp.Cache.Backend.{Backend, read_entry}
use cfr_compliance_mcp.Server.Errors.{ToolError}
use cfr_compliance_mcp.Server.Calls.{Client, Returned, error, value, Call}
use cfr_compliance_mcp.Server.Cached.{read_cached, write_back, cached_or_compute, cached_call}

module _ {A : Type 0} (encode : A → String) (decode : String → Option A) where
  hit :
      (key text : String) (ttl : Option ℤ) (n now again at : ℕ) (compute : Call A) (b : Backend)
      (c : Client)
      → again ≤ now + suc n
      → let stored = (Cache.set key text (some (pos (suc n))) now b).1 in
        cached_call encode decode key ttl again at compute (stored, c)
        ≡ (read_cached encode decode (decode text), (stored, c))
  unfolding cached_call cached_or_compute Cache.get Cache.set Cache.write_entry Cache.effective_ttl
      read_entry
  hit key text ttl n now again at compute b c fresh =
      let entry : Cache.CacheEntry = record { value = text; expires_at = now + suc n } in
      let found : lookup key (insert key entry b.store) ≡ some entry =
        lookup-insert_self key entry b.store in
      let alive : ltb (now + suc n) again ≡ false = ground arith in rw (found, alive) refl

  -- The call that finds nothing, for what it computes.
  computed :
      (key : String) (n write again at : ℕ) (compute' : Call A) (r : Returned A) (b : Backend)
      (c : Client)
      → ((a : A) → decode (encode a) ≡ some a)
      → again ≤ write + suc n
      → let ttl = some (pos (suc n)) in
        let b' = write_back encode decode key ttl write r b in
        ((e : ToolError) × (r ≡ error e) × (b' ≡ b))
        ⊎ ((a : A) × (r ≡ value a)
            × (cached_call encode decode key ttl again at compute' (b', c) ≡ (value a, (b', c))))
  unfolding write_back read_cached
  computed key n write again at compute' (error e) b c round fresh = inl (e, refl, refl)
  computed key n write again at compute' (value a) b c round fresh =
      let ttl = some (pos (suc n)) in
      let stored = (Cache.set key (encode a) ttl write b).1 in
      inr (
        a,
        refl,
        hit key (encode a) ttl n write again at compute' b c fresh
            ∙ ap (λ x. (read_cached encode decode x, (stored, c))) (round a),
      )

  -- A call that finds nothing in the cache computes. When that fails, the failure is passed on and
  -- nothing is stored. When it succeeds, a later call within the time to live, which must be
  -- positive, gets the same result without computing and changes nothing, if the result survives
  -- its encoding.
  pub cached_call-again :
      (key : String) (n read write again at : ℕ) (compute compute' : Call A) (b : Backend)
      (c : Client)
      → ((a : A) → decode (encode a) ≡ some a)
      → again ≤ write + suc n
      → (Cache.get key read b).0 ≡ none
      → let ttl = some (pos (suc n)) in
        let out = cached_call encode decode key ttl read write compute (b, c) in
        ((e : ToolError) × (out.0 ≡ error e) × (out.1.0 ≡ (Cache.get key read b).1))
        ⊎ ((a : A) × (out.0 ≡ value a)
            × (cached_call encode decode key ttl again at compute' out.1 ≡ (value a, out.1)))
  unfolding cached_call cached_or_compute
  cached_call-again key n read write again at compute compute' b c round fresh missing =
      rw (missing, cached_or_compute)
        (computed key n write again at compute' (compute c).0 (Cache.get key read b).1 (compute c).1
          round fresh)
