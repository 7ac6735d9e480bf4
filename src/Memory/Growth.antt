-- ===== src/Memory/Growth.antt =====
-- The store only grows: `index` of agent/memory.py over agent/memory_store.py.
use cfr_compliance_mcp.Prelude.{
  String, ◌≡◌, refl, ◌≢◌, ◌⊎◌, inl, inr, true, false, none, some, List, [], ◌∷◌, ◌++◌, arith,
  Bool-cases, Option-cases, truthy, mem_text, ◌∙◌, sym, subst,
}
use cfr_compliance_mcp.Models.{ComplianceResult, verified}
use cfr_compliance_mcp.Memory.Records.{MemoryRecord}
use cfr_compliance_mcp.Memory.Store.{Store, known_ids, append, line_of}
use cfr_compliance_mcp.Memory.Retrieval.{ComplianceMemory}
use cfr_compliance_mcp.Memory.Indexing.{
  IndexRequest, IndexDecision, indexed, is_eligible, build_record, store_record, index,
}

-- Reading the identifiers changes neither the file nor whether it can be used.
known_ids-lines :
    (s : Store) (ids : List String) (s' : Store)
    → known_ids s ≡ some (ids, s')
    → (s'.lines ≡ s.lines)
      × (s'.record_ids ≡ some ids)
      × (s'.readable ≡ s.readable)
      × (s'.writable ≡ s.writable)
unfolding known_ids
known_ids-lines s ids s' h = ground arith

known_ids-again :
    (s : Store) (ids : List String) → s.record_ids ≡ some ids → known_ids s ≡ some (ids, s)
unfolding known_ids
known_ids-again s ids h = ground arith

-- `append` adds the line of the record behind the others, or adds nothing.
append_cases :
    (rec : MemoryRecord) (s : Store) (ids : List String)
    → s.record_ids ≡ some ids
    → mem_text rec.record_id ids ≡ false
    → ((append rec s ≡ none)
        ⊎ ((s' : Store) × (append rec s ≡ some (true, s'))
            × (s'.lines ≡ s.lines ++ line_of rec ∷ [])
            × (s'.readable ≡ s.readable)))
unfolding append
append_cases rec s ids known fresh = elim (Bool-cases (truthy rec.record_id)) [
  | inr empty ↦ inl (rw empty)
  | inl named ↦ elim (Bool-cases s.writable) [
    | inr fixed ↦ inl (rw (named, known_ids-again s ids known, fresh) (ground arith))
    | inl open_file ↦ inr (
      record s { lines = s.lines ++ line_of rec ∷ []; record_ids = some (rec.record_id ∷ ids) },
      ground (arith, named, known_ids-again s ids known, fresh, open_file),
      refl,
      refl,
    )
  ]
]

-- The outcome of an indexing: the line was added, or nothing was.
abbrev pub Added : MemoryRecord → ComplianceMemory → IndexDecision × ComplianceMemory → Type 0
Added rec m out =
    (out.0 ≡ indexed)
    × (out.1.store.lines ≡ m.store.lines ++ line_of rec ∷ [])
    × (out.1.store.readable ≡ m.store.readable)
    × (out.1.enabled ≡ m.enabled)

abbrev pub Untouched : ComplianceMemory → IndexDecision × ComplianceMemory → Type 0
Untouched m out =
    (out.0 ≢ indexed) × (out.1.store.lines ≡ m.store.lines) × (out.1.enabled ≡ m.enabled)

store_record_cases :
    (rec : MemoryRecord) (m : ComplianceMemory)
    → Untouched m (store_record rec m (known_ids m.store))
      ⊎ Added rec m (store_record rec m (known_ids m.store))
unfolding store_record
store_record_cases rec m = elim (Option-cases (known_ids m.store)) [
  | inl unreadable ↦ inl (rw unreadable (λ e. ground arith, refl, refl))
  | inr ((ids, s), read) ↦
      let (lines, known, readable, writable) = known_ids-lines m.store ids s read in
      elim (Bool-cases (mem_text rec.record_id ids)) [
        | inl there ↦ inl (rw (read, there) (λ e. ground arith, lines, refl))
        | inr fresh ↦ elim (append_cases rec s ids known fresh) [
          | inl failed ↦ inl (rw (read, fresh, failed) (λ e. ground arith, lines, refl))
          | inr (s', done, lines', readable') ↦
              inr (rw (read, fresh, done) (refl, rw (lines', lines), readable' ∙ readable, refl))
        ]
      ]
]

module _ (sha256_hex : String → String) where
  pub index-eq :
      (result : ComplianceResult) (r : IndexRequest) (m : ComplianceMemory)
      → m.enabled ≡ true
      → r.memory_assisted ≡ false
      → is_eligible result ≡ true
      → index sha256_hex result r m
        ≡ store_record (build_record sha256_hex result r) m (known_ids m.store)
  unfolding index
  index-eq result r m on alone eligible = simp (on, alone, eligible)

  -- Indexing adds one line behind the others, and then the memory is enabled, the result eligible
  -- and not assisted by memory; or it leaves every line of the file as it was.
  pub index_cases :
      (result : ComplianceResult) (r : IndexRequest) (m : ComplianceMemory)
      → Untouched m (index sha256_hex result r m)
        ⊎ (Added (build_record sha256_hex result r) m (index sha256_hex result r m)
            × ((m.enabled ≡ true) × (r.memory_assisted ≡ false) × (is_eligible result ≡ true)))
  unfolding index
  index_cases result r m = elim (Bool-cases m.enabled) [
    | inr off ↦ inl (rw off (λ e. ground arith, refl, refl))
    | inl on ↦ elim (Bool-cases r.memory_assisted) [
      | inl assisted ↦ inl (rw (on, assisted) (λ e. ground arith, refl, refl))
      | inr alone ↦ elim (Bool-cases (is_eligible result)) [
        | inr barred ↦ inl (rw (on, alone, barred) (λ e. ground arith, refl, refl))
        | inl eligible ↦ elim (store_record_cases (build_record sha256_hex result r) m) [
          | inl same ↦ inl (subst (Untouched m) (sym (index-eq result r m on alone eligible)) same)
          | inr more ↦ inr (
            subst (Added (build_record sha256_hex result r) m)
                (sym (index-eq result r m on alone eligible)) more,
            (on, alone, eligible),
          )
        ]
      ]
    ]
  ]

pub eligible-verified :
    (result : ComplianceResult) → is_eligible result ≡ true → result.verification_status ≡ verified
unfolding is_eligible
eligible-verified result h = ground arith
