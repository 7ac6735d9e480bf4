-- ===== src/Cache/Refinement.antt =====
-- The refinement of cache_backend.py: the cache against an ideal store that never drops an
-- entry. Eviction, lazy or proactive, cannot be seen by a reader.
use cfr_compliance_mcp.Prelude.{
  ℕ, zero, suc, ◌+◌, String, ◌≡◌, refl, ◌∙◌, ap, sym, false, Option, none, some, List, [], ◌∷◌, ltb,
  arith, if◌then◌else◌, eq_iff, ◌==◌, mem_text, Bool-cases, inl, inr, Option-cases,
}
use cfr_compliance_mcp.Prelude.Int.{ℤ, pos, negsuc}
use cfr_compliance_mcp.Prelude.Dict.{
  Dict, lookup, insert, remove, string_eq, lookup-insert, lookup-remove, Distinct, insert-Distinct,
  remove-Distinct,
}
use cfr_compliance_mcp.Cache.Backend.{
  CacheEntry, Backend, get, set, delete, clear, write_entry, expired_keys, remove_keys,
  evict_expired,
}
use mathlib.Core.Path.{ap₂, subst}
use cfr_compliance_mcp.Cache.Ideal.{
  live, value_of, Op, read, write, erase, erase_all, evict, value, write_reply, step, Ideal,
  write_ideal, ideal_step, replies, ideal_replies, Same,
}

-- What has expired stays expired.
live-live : (now t : ℕ) (o : Option CacheEntry) → live (now + t) (live now o) ≡ live (now + t) o
live-live now t o = ground arith

Same-later :
    (default : ℤ) (now t : ℕ) (b : Backend) (s : Ideal)
    → Same default now b s
    → Same default (now + t) b s
Same-later default now t b s h = record {
  views = λ k.
      sym (live-live now t (lookup k b.store))
      ∙ ap (live (now + t)) (h.views k)
      ∙ live-live now t (s k);
  ttl = h.ttl;
  distinct = h.distinct;
}

lookup-remove_keys :
    (k : String) (ks : List String) (d : Dict String CacheEntry)
    → lookup k (remove_keys ks d) ≡ (if mem_text k ks then none else lookup k d)
unfolding remove_keys
lookup-remove_keys k [] d = refl
lookup-remove_keys k (j ∷ ks) d =
    ground
      (arith, lookup-remove_keys k ks (remove j d), lookup-remove j k d, eq_iff k j, eq_iff j k)

remove_keys-Distinct :
    (ks : List String) (d : Dict String CacheEntry) → Distinct d → Distinct (remove_keys ks d)
unfolding remove_keys
remove_keys-Distinct [] d h = h
remove_keys-Distinct (k ∷ ks) d h = remove_keys-Distinct ks (remove k d) (remove-Distinct k d h)

not_expired :
    (k : String) (now : ℕ) (d : Dict String CacheEntry)
    → lookup k d ≡ none
    → mem_text k (expired_keys now d) ≡ false
unfolding expired_keys lookup
not_expired k now [] h = refl
not_expired k now ((j, e) ∷ d) h = ground (arith, not_expired k now d, eq_iff k j, eq_iff j k)

lookup-evict :
    (k : String) (now : ℕ) (d : Dict String CacheEntry)
    → Distinct d
    → (if mem_text k (expired_keys now d) then none else lookup k d) ≡ live now (lookup k d)
unfolding expired_keys lookup
lookup-evict k now [] h = refl
lookup-evict k now ((j, e) ∷ d) h = ground (
  arith,
  lookup-evict k now d h.1,
  not_expired j now d h.0,
  not_expired k now d,
  eq_iff k j,
  eq_iff j k,
)

live_twice : (now : ℕ) (o : Option CacheEntry) → live now (live now o) ≡ live now o
live_twice now o = ground arith

module _ (default : ℤ) (now : ℕ) (b : Backend) (s : Ideal) (h : Same default now b s) where
  Same-get :
      (k : String)
      → ((get k now b).0 ≡ value_of (live now (s k))) × Same default now (get k now b).1 s
  unfolding get
  Same-get k = elim (Option-cases (lookup k b.store)) [
    | inl absent ↦ rw absent (ground (arith, h.views k), h)
    | inr (e, found) ↦ elim (Bool-cases (ltb e.expires_at now)) [
      | inl gone ↦
          rw (found, gone)
            (
              ground (arith, h.views k),
              record {
                views = λ j.
                    ground (arith, h.views j, h.views k, lookup-remove k j b.store, eq_iff k j);
                ttl = h.ttl;
                distinct = remove-Distinct k b.store h.distinct;
              },
            )
      | inr here ↦ rw (found, here) (ground (arith, h.views k), h)
    ]
  ]

  Same-set :
      (k v : String) (n : ℕ)
      → Same default now
          (record b { store = insert k (record { value = v; expires_at = now + suc n }) b.store })
          (λ j. if k == j then some (record { value = v; expires_at = now + suc n }) else s j)
  Same-set k v n = record {
    views = λ j. ground (
      arith,
      h.views j,
      lookup-insert k j (let e : CacheEntry = record { value = v; expires_at = now + suc n } in e)
          b.store,
    );
    ttl = h.ttl;
    distinct = insert-Distinct k _ b.store h.distinct;
  }

  Same-delete : (k : String) → Same default now (delete k b) (λ j. if k == j then none else s j)
  unfolding delete
  Same-delete k = record {
    views = λ j. ground (arith, h.views j, lookup-remove k j b.store);
    ttl = h.ttl;
    distinct = remove-Distinct k b.store h.distinct;
  }

  Same-evict : Same default now (evict_expired now b).1 s
  unfolding evict_expired
  Same-evict = record {
    views = λ k.
        ap (live now) (
          lookup-remove_keys k (expired_keys now b.store) b.store
          ∙ lookup-evict k now b.store h.distinct)
        ∙ live_twice now (lookup k b.store)
        ∙ h.views k;
    ttl = h.ttl;
    distinct = remove_keys-Distinct (expired_keys now b.store) b.store h.distinct;
  }

  Same-write :
      (k v : String) (ttl : ℤ)
      → ((write_reply (write_entry k v ttl now b)).0 ≡ (write_ideal k v ttl now s).0)
        × Same default now (write_reply (write_entry k v ttl now b)).1 (write_ideal k v ttl now s).1
  unfolding write_entry
  Same-write k v (negsuc n) = (refl, h)
  Same-write k v (pos zero) = (refl, h)
  Same-write k v (pos (suc n)) = (refl, Same-set k v n)

Same-step :
    (default : ℤ) (now : ℕ) (op : Op) (b : Backend) (s : Ideal)
    → Same default now b s
    → ((step now op b).0 ≡ (ideal_step default now op s).0)
      × Same default now (step now op b).1 (ideal_step default now op s).1
unfolding step ideal_step set clear lookup
Same-step default now (read k) b s h =
    let (v, after) = Same-get default now b s h k in (ap value v, after)
Same-step default now (write k v none) b s h =
    subst
      (λ ttl.
        ((write_reply (write_entry k v b.default_ttl_seconds now b)).0
          ≡ (write_ideal k v ttl now s).0)
        × Same default now (write_reply (write_entry k v b.default_ttl_seconds now b)).1
            (write_ideal k v ttl now s).1)
      h.ttl (Same-write default now b s h k v b.default_ttl_seconds)
Same-step default now (write k v (some ttl)) b s h = Same-write default now b s h k v ttl
Same-step default now (erase k) b s h = (refl, Same-delete default now b s h k)
Same-step default now erase_all b s h =
    (refl, record { views = λ k. refl; ttl = h.ttl; distinct = tt })
Same-step default now evict b s h = (refl, Same-evict default now b s h)

-- Whatever is read, written, deleted, cleared and evicted, and however long the waits between the
-- operations: from a backend whose keys are distinct, which shows a reader at that time the same as
-- an ideal store that drops nothing, the replies are those of the ideal store.
pub replies-ideal :
    (default : ℤ) (now : ℕ) (ops : List (ℕ × Op)) (b : Backend) (s : Ideal)
    → Same default now b s
    → replies now ops b ≡ ideal_replies default now ops s
unfolding replies ideal_replies
replies-ideal default now [] b s h = refl
replies-ideal default now ((wait, op) ∷ ops) b s h =
    let (same, after) = Same-step default (now + wait) op b s (Same-later default now wait b s h) in
    ap₂ ◌∷◌ same (
      replies-ideal default (now + wait) ops (step (now + wait) op b).1
        (ideal_step default (now + wait) op s).1 after)
