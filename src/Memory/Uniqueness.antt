-- ===== src/Memory/Uniqueness.antt =====
-- No record is stored twice: the identifiers of agent/memory_store.py.
use mathlib.Core.Bool.{false≢true}
use cfr_compliance_mcp.Prelude.{
  String, ◌≡◌, refl, ◌⊎◌, inl, inr, Bool, true, false, ◌||◌, Option, none, some, List, [], ◌∷◌,
  ◌++◌, arith, Bool-cases, Option-cases, eq_iff, ◌==◌, truthy, mem_text, sym, ◌∙◌, ap, subst,
}
use cfr_compliance_mcp.Models.{ComplianceResult}
use cfr_compliance_mcp.Memory.Records.{MemoryRecord}
use cfr_compliance_mcp.Memory.Store.{
  Line, malformed, object, Store, objects, load, ids_of, remember, known_ids, is_one_line, line_of,
  append_known, append,
}
use cfr_compliance_mcp.Memory.Retrieval.{ComplianceMemory}
use cfr_compliance_mcp.Memory.Growth.{index-eq}
use cfr_compliance_mcp.Memory.Indexing.{
  IndexRequest, is_eligible, build_record, store_record, appended, index,
}

-- The identifiers that the file gives when it is read.
abbrev pub stored_ids : List Line → List String
stored_ids ls = ids_of (objects ls)

abbrev pub AllDistinct : List String → Type 0
AllDistinct [] = Unit
AllDistinct (i ∷ ids) = (mem_text i ids ≡ false) × AllDistinct ids

-- The identifiers that are kept, if they are, have those of the file among them.
abbrev pub Knows : Option (List String) → List Line → Type 0
Knows none ls = Unit
Knows (some ids) ls = (i : String) → mem_text i (stored_ids ls) ≡ true → mem_text i ids ≡ true

pub record IsConsistent (s : Store) : Type 0 where
  pub knows : Knows s.record_ids s.lines
  pub distinct : AllDistinct (stored_ids s.lines)

stored_ids-snoc :
    (ls : List Line) (rec : MemoryRecord)
    → truthy rec.record_id ≡ true
    → is_one_line rec ≡ true
    → stored_ids (ls ++ line_of rec ∷ []) ≡ stored_ids ls ++ rec.record_id ∷ []
unfolding ids_of objects line_of
stored_ids-snoc [] rec h whole = rw (whole, h) refl
stored_ids-snoc (malformed ∷ ls) rec h whole = stored_ids-snoc ls rec h whole
stored_ids-snoc (object none r ∷ ls) rec h whole = stored_ids-snoc ls rec h whole
stored_ids-snoc (object (some i) r ∷ ls) rec h whole = elim (Bool-cases (truthy i)) [
  | inl named ↦ rw named (ap (◌∷◌ i) (stored_ids-snoc ls rec h whole))
  | inr empty ↦ rw empty (stored_ids-snoc ls rec h whole)
]

-- A record that is cut adds no identifier.
stored_ids-cut :
    (ls : List Line) (rec : MemoryRecord)
    → is_one_line rec ≡ false
    → stored_ids (ls ++ line_of rec ∷ []) ≡ stored_ids ls
unfolding ids_of objects line_of
stored_ids-cut [] rec cut = rw cut refl
stored_ids-cut (malformed ∷ ls) rec cut = stored_ids-cut ls rec cut
stored_ids-cut (object none r ∷ ls) rec cut = stored_ids-cut ls rec cut
stored_ids-cut (object (some i) r ∷ ls) rec cut = elim (Bool-cases (truthy i)) [
  | inl named ↦ rw named (ap (◌∷◌ i) (stored_ids-cut ls rec cut))
  | inr empty ↦ rw empty (stored_ids-cut ls rec cut)
]

mem-last :
    (i j : String) (ids : List String) → mem_text i (ids ++ j ∷ []) ≡ (i == j || mem_text i ids)
mem-last i j [] = ground arith
mem-last i j (k ∷ ids) = ground (arith, mem-last i j ids)

AllDistinct-snoc :
    (ids : List String) (j : String)
    → AllDistinct ids
    → mem_text j ids ≡ false
    → AllDistinct (ids ++ j ∷ [])
AllDistinct-snoc [] j h new = (refl, tt)
AllDistinct-snoc (i ∷ ids) j h new = (
  ground (arith, mem-last i j ids, h.0, eq_iff i j, eq_iff j i),
  AllDistinct-snoc ids j h.1 (ground arith),
)

-- What reading the identifiers gives.
abbrev Read : Store → List String × Store → Type 0
Read s out = IsConsistent out.1 × (out.1.record_ids ≡ some out.0)

known_ids-kept :
    (s : Store) (ids : List String) → s.record_ids ≡ some ids → known_ids s ≡ some (ids, s)
unfolding known_ids
known_ids-kept s ids h = ground arith

known_ids-read :
    (s : Store)
    → s.record_ids ≡ none
    → (known_ids s ≡ none)
      ⊎ (known_ids s
          ≡ some (stored_ids s.lines, record s { record_ids = some (stored_ids s.lines) }))
unfolding known_ids remember load
known_ids-read s h = elim (Bool-cases s.readable) [
  | inl y ↦ inr (ground arith)
  | inr n ↦ inl (ground arith)
]

some-eq {ℓ} : {A : Type ℓ} (a b : A) → some a ≡ some b → a ≡ b
some-eq a b h = ap (λ o. elim o [ none ↦ a | some x ↦ x ]) h

-- Reading the identifiers keeps the store consistent, and they are those of the file.
known_ids-Read :
    (s : Store) (out : List String × Store) → IsConsistent s → known_ids s ≡ some out → Read s out
known_ids-Read s out c h = elim (Option-cases s.record_ids) [
  | inr (ids, kept) ↦
      subst (Read s) (some-eq (ids, s) out (sym (known_ids-kept s ids kept) ∙ h)) (c, kept)
  | inl absent ↦ elim (known_ids-read s absent) [
    | inl failed ↦ absurd (ground arith)
    | inr found ↦
        let s' : Store = record s { record_ids = some (stored_ids s.lines) } in
        subst (Read s) (some-eq (stored_ids s.lines, s') out (sym found ∙ h))
          (record { knows = λ i h. h; distinct = c.distinct }, refl)
  ]
]

appended-IsConsistent :
    (rec : MemoryRecord) (s : Store) (ids : List String)
    → IsConsistent s
    → s.record_ids ≡ some ids
    → mem_text rec.record_id ids ≡ false
    → truthy rec.record_id ≡ true
    → IsConsistent
        (record s { lines = s.lines ++ line_of rec ∷ []; record_ids = some (rec.record_id ∷ ids) })
appended-IsConsistent rec s ids c known new named =
    let among : Knows (some ids) s.lines = subst (λ o. Knows o s.lines) known c.knows in
    let absent : mem_text rec.record_id (stored_ids s.lines) ≡ false =
      elim (Bool-cases (mem_text rec.record_id (stored_ids s.lines))) [
        | inl there ↦ absurd (false≢true (sym new ∙ among rec.record_id there))
        | inr absent ↦ absent
      ] in
    elim (Bool-cases (is_one_line rec)) [
      | inr cut ↦ record {
        knows =
            λ i h. (let here = among i (rw (stored_ids-cut s.lines rec cut) at h) in ground arith);
        distinct = rw (stored_ids-cut s.lines rec cut) c.distinct;
      }
      | inl whole ↦ record {
        knows = λ i h.
            (let here = among i in
              let last = mem-last i rec.record_id (stored_ids s.lines) in
              let there : (i == rec.record_id || mem_text i (stored_ids s.lines)) ≡ true =
                sym last ∙ (rw (stored_ids-snoc s.lines rec named whole) at h) in
              elim (Bool-cases (i == rec.record_id)) [
                | inl same ↦ ground arith
                | inr other ↦ let old = among i (ground arith) in ground arith
              ]);
        distinct =
            rw (stored_ids-snoc s.lines rec named whole)
              (AllDistinct-snoc (stored_ids s.lines) rec.record_id c.distinct absent);
      }
    ]

append-IsConsistent :
    (rec : MemoryRecord) (s : Store) (ids : List String) (b : Bool) (s' : Store)
    → IsConsistent s
    → s.record_ids ≡ some ids
    → mem_text rec.record_id ids ≡ false
    → append rec s ≡ some (b, s')
    → IsConsistent s'
unfolding append append_known
append-IsConsistent rec s ids b s' c known new h = elim (Bool-cases (truthy rec.record_id)) [
  | inr empty ↦ absurd (ground arith)
  | inl named ↦ elim (Bool-cases s.writable) [
    | inr fixed ↦ absurd (ground (arith, known_ids-kept s ids known))
    | inl open_file ↦
        let after : Store = record s {
          lines = s.lines ++ line_of rec ∷ [];
          record_ids = some (rec.record_id ∷ ids);
        } in
        let done : append rec s ≡ some (true, after) = ground (arith, known_ids-kept s ids known) in
        subst IsConsistent (ap (λ o. o.1) (some-eq (true, after) (b, s') (sym done ∙ h)))
          (appended-IsConsistent rec s ids c known new named)
  ]
]

store_record-IsConsistent :
    (rec : MemoryRecord) (m : ComplianceMemory)
    → IsConsistent m.store
    → IsConsistent (store_record rec m (known_ids m.store)).1.store
unfolding store_record appended
store_record-IsConsistent rec m c = elim (Option-cases (known_ids m.store)) [
  | inl unreadable ↦ rw (unreadable, store_record) c
  | inr ((ids, s), read) ↦
      let (c', known) = known_ids-Read m.store (ids, s) c read in
      elim (Bool-cases (mem_text rec.record_id ids)) [
        | inl there ↦ rw (read, there, store_record) c'
        | inr fresh ↦ elim (Option-cases (append rec s)) [
          | inl failed ↦ rw (read, fresh, failed, store_record) c'
          | inr ((b, s'), done) ↦
              rw (read, fresh, done, store_record)
                (append-IsConsistent rec s ids b s' c' known fresh done)
        ]
      ]
]

-- Indexing keeps the memory consistent, whatever the result, the request and the faults of the file:
-- no identifier stands twice among the records that reading the file gives, and all of these
-- identifiers are among those that the memory keeps, once it keeps any.
pub index-IsConsistent :
    (sha256_hex : String → String) (result : ComplianceResult) (r : IndexRequest)
    (m : ComplianceMemory)
    → IsConsistent m.store
    → IsConsistent (index sha256_hex result r m).1.store
unfolding index
index-IsConsistent sha256_hex result r m c = elim (Bool-cases m.enabled) [
  | inr off ↦ rw (off, index) c
  | inl on ↦ elim (Bool-cases r.memory_assisted) [
    | inl assisted ↦ rw (on, assisted, index) c
    | inr alone ↦ elim (Bool-cases (is_eligible result)) [
      | inr barred ↦ rw (on, alone, barred, index) c
      | inl eligible ↦
          subst (λ out. IsConsistent out.1.store)
            (sym (index-eq sha256_hex result r m on alone eligible))
            (store_record-IsConsistent (build_record sha256_hex result r) m c)
    ]
  ]
]
