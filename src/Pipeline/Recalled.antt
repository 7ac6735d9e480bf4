-- ===== src/Pipeline/Recalled.antt =====
-- What a lookup in a memory that can be trusted offers to agent/compliance_pipeline.py: records that
-- make a result, and records that can be rendered.
use mathlib.Core.Bool.{false≢true}
use cfr_compliance_mcp.Prelude.{
  ℕ, zero, suc, take, String, ◌≡◌, refl, sym, ◌∙◌, subst, ◌⊎◌, inl, inr, true, false, ◌&&◌, Option,
  none, some, List, [], ◌∷◌, ◌++◌, all, arith, Bool-cases,
}
use cfr_compliance_mcp.Memory.Records.{
  StoredPassage, accepted, refused, MemoryRecord, MatchType, exact, near, no_match,
}
use cfr_compliance_mcp.Memory.Store.{objects, load}
use cfr_compliance_mcp.Memory.Retrieval.{
  Query, ComplianceMemory, Found, consider, consider_all, make_lookup, parsed, retrieve,
}
use cfr_compliance_mcp.Memory.Similarity.{tokens}
use cfr_compliance_mcp.Pipeline.Evaluation.{
  Memory, look_up, exact_of, joins, citations_join, exact_joins, can_render,
}
use cfr_compliance_mcp.Pipeline.Trust.{is_accepted, is_acceptable, trusted}

abbrev Trusted : Option MemoryRecord → Type 0
Trusted none = Unit
Trusted (some rec) = is_acceptable rec ≡ true

consider-exact :
    (q : Query) (ct : List String) (found : Found) (rec : MemoryRecord)
    → ((consider q ct found rec).0 ≡ found.0) ⊎ ((consider q ct found rec).0 ≡ some rec)
unfolding consider
consider-exact q [] (e, n) rec = ground arith
consider-exact q (t ∷ ts) (e, n) rec = ground arith

Trusted-consider_all :
    (q : Query) (ct : List String) (found : Found) (recs : List MemoryRecord)
    → all is_acceptable recs ≡ true
    → Trusted found.0
    → Trusted (consider_all q ct found recs).0
unfolding consider_all
Trusted-consider_all q ct found [] h old = old
Trusted-consider_all q ct found (rec ∷ recs) h old =
    Trusted-consider_all q ct (consider q ct found rec) recs (ground arith)
      (elim (consider-exact q ct found rec) [
        | inl same ↦ subst Trusted (sym same) old
        | inr new ↦ subst Trusted (sym new) (ground arith)
      ])

make_lookup-found : (found : Found) → (make_lookup found).exact_record ≡ found.0
unfolding make_lookup
make_lookup-found (some rec, n) = refl
make_lookup-found (none, []) = refl
make_lookup-found (none, r ∷ rs) = refl

retrieve-Trusted :
    (q : Query) (m : ComplianceMemory)
    → trusted (some m) ≡ true
    → Trusted (retrieve q m).exact_record
unfolding retrieve load
retrieve-Trusted q m h = elim (Bool-cases m.enabled) [
  | inr off ↦ rw (off, retrieve) tt
  | inl on ↦ elim (Bool-cases m.store.readable) [
    | inr closed ↦ rw (on, closed, retrieve) tt
    | inl open_file ↦
        let recs = parsed (objects m.store.lines) in
        let found = consider_all q (tokens q.clause.text) (none, []) recs in
        rw (on, open_file, retrieve)
          (subst Trusted (sym (make_lookup-found found))
            (Trusted-consider_all q (tokens q.clause.text) (none, []) recs h tt))
  ]
]

-- The near records of the loop are stored ones.
consider-near :
    (q : Query) (ct : List String) (found : Found) (rec : MemoryRecord)
    → ((consider q ct found rec).1 ≡ found.1) ⊎ ((consider q ct found rec).1 ≡ found.1 ++ rec ∷ [])
unfolding consider
consider-near q [] (e, n) rec = ground arith
consider-near q (t ∷ ts) (e, n) rec = ground arith

all-snoc :
    (recs : List MemoryRecord) (rec : MemoryRecord)
    → all is_acceptable recs ≡ true
    → is_acceptable rec ≡ true
    → all is_acceptable (recs ++ rec ∷ []) ≡ true
all-snoc [] rec h fine = ground arith
all-snoc (r ∷ recs) rec h fine = let later = all-snoc recs rec (ground arith) fine in ground arith

near-consider_all :
    (q : Query) (ct : List String) (found : Found) (recs : List MemoryRecord)
    → all is_acceptable recs ≡ true
    → all is_acceptable found.1 ≡ true
    → all is_acceptable (consider_all q ct found recs).1 ≡ true
unfolding consider_all
near-consider_all q ct found [] h old = old
near-consider_all q ct found (rec ∷ recs) h old =
    near-consider_all q ct (consider q ct found rec) recs (ground arith)
      (elim (consider-near q ct found rec) [
        | inl same ↦ rw same old
        | inr more ↦ rw more (all-snoc found.1 rec old (ground arith))
      ])

all-take :
    (n : ℕ) (recs : List MemoryRecord)
    → all is_acceptable recs ≡ true
    → all is_acceptable (take n recs) ≡ true
all-take zero recs h = refl
all-take (suc n) [] h = refl
all-take (suc n) (r ∷ recs) h = let later = all-take n recs (ground arith) in ground arith

make_lookup-near :
    (found : Found)
    → all is_acceptable found.1 ≡ true
    → all is_acceptable (make_lookup found).near_records ≡ true
unfolding make_lookup
make_lookup-near (some rec, n) h = h
make_lookup-near (none, []) h = refl
make_lookup-near (none, r ∷ rs) h = all-take 3 (r ∷ rs) h

retrieve-near :
    (q : Query) (m : ComplianceMemory)
    → trusted (some m) ≡ true
    → all is_acceptable (retrieve q m).near_records ≡ true
unfolding retrieve load
retrieve-near q m h = elim (Bool-cases m.enabled) [
  | inr off ↦ rw (off, retrieve) refl
  | inl on ↦ elim (Bool-cases m.store.readable) [
    | inr closed ↦ rw (on, closed, retrieve) refl
    | inl open_file ↦
        let recs = parsed (objects m.store.lines) in
        let found = consider_all q (tokens q.clause.text) (none, []) recs in
        rw (on, open_file, retrieve)
          (make_lookup-near found
            (near-consider_all q (tokens q.clause.text) (none, []) recs h refl))
  ]
]

accepted-joins : (evs : List StoredPassage) → all is_accepted evs ≡ true → all joins evs ≡ true
accepted-joins [] h = refl
accepted-joins (accepted ev ∷ evs) h = accepted-joins evs h
accepted-joins (refused text ∷ evs) h = absurd (ground arith)

acceptable-join :
    (recs : List MemoryRecord) → all is_acceptable recs ≡ true → all citations_join recs ≡ true
acceptable-join [] h = refl
acceptable-join (r ∷ recs) h =
    let here = accepted-joins r.evidence (ground arith) in
    let later = acceptable-join recs (ground arith) in ground arith

Trusted-joins : (e : Option MemoryRecord) → Trusted e → exact_joins e ≡ true
Trusted-joins none h = refl
Trusted-joins (some rec) h = accepted-joins rec.evidence (ground arith)

renders :
    (e : Option MemoryRecord) (near_recs : List MemoryRecord)
    → Trusted e
    → all is_acceptable near_recs ≡ true
    → (elim near_recs [ [] ↦ true | ◌∷◌ r rs ↦ exact_joins e && all citations_join (r ∷ rs) ])
      ≡ true
renders e [] h fine = refl
renders e (r ∷ rs) h fine =
    let first = Trusted-joins e h in let rest = acceptable-join (r ∷ rs) fine in ground arith

-- Where the rendering of a lookup raises, the memory is not trusted.
pub unrendered-untrusted :
    (q : Query) (memory : Memory) → can_render (look_up q memory) ≡ false → trusted memory ≡ false
unfolding can_render look_up
unrendered-untrusted q none h = absurd (ground arith)
unrendered-untrusted q (some m) h = elim (Bool-cases (trusted (some m))) [
  | inr no_trust ↦ no_trust
  | inl trust ↦
      let fine =
        renders (retrieve q m).exact_record (retrieve q m).near_records (retrieve-Trusted q m trust)
          (retrieve-near q m trust) in
      absurd (false≢true (sym h ∙ fine))
]

-- A verdict that a trusted memory offers for reuse comes from an acceptable record.
pub exact_of-acceptable :
    (q : Query) (memory : Memory) (rec : MemoryRecord)
    → trusted memory ≡ true
    → exact_of (look_up q memory) ≡ some rec
    → is_acceptable rec ≡ true
unfolding exact_of look_up
exact_of-acceptable q none rec h found = absurd (ground arith)
exact_of-acceptable q (some m) rec h found =
    go (retrieve q m).match_type (retrieve q m).exact_record (retrieve-Trusted q m h) found
  where
    go :
        (mt : MatchType) (e : Option MemoryRecord)
        → Trusted e
        → elim mt [ exact ↦ e | near ↦ none | no_match ↦ none ] ≡ some rec
        → is_acceptable rec ≡ true
    go exact none t same = absurd (ground arith)
    go exact (some r) t same =
        let r_rec : r ≡ rec = ground arith in subst (λ x. is_acceptable x ≡ true) r_rec t
    go near e t same = absurd (ground arith)
    go no_match e t same = absurd (ground arith)
