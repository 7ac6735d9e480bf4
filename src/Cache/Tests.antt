-- ===== src/Cache/Tests.antt =====
-- The cache on a short run: tests of src/cfr_compliance_mcp/cache/cache_backend.py.
use cfr_compliance_mcp.Prelude.{ℕ, ◌≡◌, refl, none, some, List, [], ◌∷◌}
use cfr_compliance_mcp.Prelude.Int.{pos}
use cfr_compliance_mcp.Prelude.Dict.{lookup, string_eq}
use cfr_compliance_mcp.Cache.Backend.{Backend, build_cache_key}
use cfr_compliance_mcp.Cache.Ideal.{
  Op, read, write, evict, erase, Ideal, replies, ideal_replies, Same,
}
use cfr_compliance_mcp.Cache.Refinement.{replies-ideal}

abbrev fresh : Backend
fresh = record { default_ttl_seconds = pos 60; store = [] }

abbrev nothing_kept : Ideal
nothing_kept k = none

abbrev timed : List (ℕ × Op)
timed =
    (0, write "k" "v" (some (pos 5)))
    ∷ (3, read "k")
    ∷ (1, evict)
    ∷ (4, read "k")
    ∷ (0, write "j" "w" none)
    ∷ (59, read "j")
    ∷ (0, erase "j")
    ∷ (0, write "k" "x" (some (pos 0)))
    ∷ []

fresh-Same : Same (pos 60) 100 fresh nothing_kept
unfolding lookup
fresh-Same = record { views = λ k. refl; ttl = refl; distinct = tt }

replies-ideal_example : replies 100 timed fresh ≡ ideal_replies (pos 60) 100 timed nothing_kept
replies-ideal_example = replies-ideal (pos 60) 100 timed fresh nothing_kept fresh-Same

-- Two lists of parts with one key.
keys_collide : build_cache_key (some "40" ∷ none ∷ []) ≡ build_cache_key (some "40:none" ∷ [])
unfolding build_cache_key
keys_collide = refl
