-- ===== src/Memory/Reuse.antt =====
-- When a stored verdict may be reused: `retrieve` of agent/memory.py.
use cfr_compliance_mcp.Prelude.{
  ℕ, zero, suc, ◌≤◌, String, ◌≡◌, refl, ◌≢◌, ◌⊎◌, inl, inr, true, false, Option, none, some, List,
  [], ◌∷◌, ◌++◌, arith, Bool-cases, Option-cases, All, eq_iff, ◌==◌, truthy, length, length-take,
  take, ◌∙◌, ap, sym,
}
use mathlib.Core.Bool.{false≢true}
use cfr_compliance_mcp.Memory.Records.{MemoryRecord, MemoryLookup, MatchType, exact, near, no_match}
use cfr_compliance_mcp.Memory.Similarity.{tokens, near_enough, normalize_citation}
use cfr_compliance_mcp.Memory.Store.{load}
use cfr_compliance_mcp.Memory.Retrieval.{
  Query, ComplianceMemory, compatible_scope, exact_reuse_allowed, Found, consider, consider_all,
  make_lookup, parsed, retrieve,
}

-- The conditions on a record whose verdict is reused for a query.
pub record Reusable (rec : MemoryRecord) (q : Query) : Type 0 where
  pub same_clause : rec.clause_id ≡ q.clause.clause_id
  pub verified : rec.verification_status ≡ "verified"
  pub unassisted : rec.memory_assisted ≡ false
  pub decisive : (rec.status ≡ "Compliant") ⊎ (rec.status ≡ "Non-Compliant")
  pub cited : truthy q.citation ≡ true
  pub same_citation :
      (truthy rec.citation ≡ false)
      ⊎ (normalize_citation rec.citation ≡ normalize_citation q.citation)
  pub same_title : (rec.title ≡ 0) ⊎ (q.title ≡ 0) ⊎ (rec.title ≡ q.title)
  pub versioned : truthy q.effective_version ≡ true
  pub same_version : rec.effective_version ≡ q.effective_version

allowed-Reusable :
    (rec : MemoryRecord) (q : Query) → exact_reuse_allowed rec q ≡ true → Reusable rec q
unfolding exact_reuse_allowed
allowed-Reusable rec q h = record {
  same_clause = ground (arith, eq_iff rec.clause_id q.clause.clause_id);
  verified = ground (arith, eq_iff rec.verification_status "verified");
  unassisted = ground arith;
  decisive = ground (arith, eq_iff rec.status "Compliant", eq_iff rec.status "Non-Compliant");
  cited = ground arith;
  same_citation =
      ground (arith, eq_iff (normalize_citation rec.citation) (normalize_citation q.citation));
  same_title = ground arith;
  versioned = ground arith;
  same_version = ground (arith, eq_iff q.effective_version rec.effective_version);
}

-- What the loop has found so far.
abbrev ExactFine : Query → Option MemoryRecord → Type 0
ExactFine q none = Unit
ExactFine q (some rec) = Reusable rec q

abbrev pub Similar : Query → List String → MemoryRecord → Type 0
Similar q clause_tokens rec =
    (near_enough clause_tokens (tokens rec.clause_text) ≡ true)
    × ((rec.clause_id == q.clause.clause_id) ≡ false)

All-snoc {ℓ κ} :
    {A : Type ℓ} (P : A → Type κ) (xs : List A) (x : A) → All P xs → P x → All P (xs ++ x ∷ [])
All-snoc P [] x h p = (p, tt)
All-snoc P (y ∷ ys) x h p = (h.0, All-snoc P ys x h.1 p)

All-take {ℓ κ} : {A : Type ℓ} (P : A → Type κ) (n : ℕ) (xs : List A) → All P xs → All P (take n xs)
All-take P zero xs h = tt
All-take P (suc n) [] h = tt
All-take P (suc n) (x ∷ xs) h = (h.0, All-take P n xs h.1)

module _ (q : Query) (ct : List String) where
  record Fine (found : Found) : Type 0 where
    exact_fine : ExactFine q found.0
    near_fine : All (Similar q ct) found.1

  Fine-near :
      (ct' : List String) (found : Found) (rec : MemoryRecord)
      → ct ≡ ct'
      → (rec.clause_id == q.clause.clause_id) ≡ false
      → compatible_scope rec q ≡ true
      → Fine found
      → Fine (consider q ct' found rec)
  unfolding consider
  Fine-near [] found rec same other scope f = rw (scope, other) f
  Fine-near (t ∷ ts) (e, n) rec same other scope f =
      elim (Bool-cases (near_enough (t ∷ ts) (tokens rec.clause_text))) [
        | inl close ↦
            rw (scope, other, close)
              (record {
                exact_fine = f.exact_fine;
                near_fine = All-snoc (Similar q ct) n rec f.near_fine (rw same (close), other);
              })
        | inr far ↦ rw (scope, other, far) f
      ]

  Fine-consider : (found : Found) (rec : MemoryRecord) → Fine found → Fine (consider q ct found rec)
  unfolding consider
  Fine-consider (e, n) rec f = elim (Bool-cases (compatible_scope rec q)) [
    | inr no_scope ↦ rw no_scope f
    | inl scope ↦ elim (Bool-cases (rec.clause_id == q.clause.clause_id)) [
      | inr other ↦ Fine-near ct (e, n) rec refl other scope f
      | inl same ↦ elim (Bool-cases (exact_reuse_allowed rec q)) [
        | inl allowed ↦
            rw (scope, same, allowed)
              (record { exact_fine = allowed-Reusable rec q allowed; near_fine = f.near_fine })
        | inr barred ↦ rw (scope, same, barred) f
      ]
    ]
  ]

  Fine-consider_all :
      (found : Found) (recs : List MemoryRecord) → Fine found → Fine (consider_all q ct found recs)
  unfolding consider_all
  Fine-consider_all found [] f = f
  Fine-consider_all found (rec ∷ recs) f =
      Fine-consider_all (consider q ct found rec) recs (Fine-consider found rec f)

-- What a lookup promises: an exact match is a record that may be reused, without one there are at
-- most three near records, and a near record is similar and of another clause.
abbrev pub Offers : Query → MatchType → Option MemoryRecord → List MemoryRecord → Type 0
Offers q exact exact_rec near_recs = (rec : MemoryRecord) × (exact_rec ≡ some rec) × Reusable rec q
Offers q near exact_rec near_recs =
    (exact_rec ≡ none)
    × (near_recs ≢ [])
    × (length near_recs ≤ 3)
    × All (Similar q (tokens q.clause.text)) near_recs
Offers q no_match exact_rec near_recs = (exact_rec ≡ none) × (near_recs ≡ [])

abbrev pub Promised : Query → MemoryLookup → Type 0
Promised q lookup = Offers q lookup.match_type lookup.exact_record lookup.near_records

make_lookup-Promised :
    (q : Query) (found : Found)
    → Fine q (tokens q.clause.text) found
    → Promised q (make_lookup found)
unfolding make_lookup
make_lookup-Promised q (some rec, n) f = (rec, refl, f.exact_fine)
make_lookup-Promised q (none, []) f = (refl, refl)
make_lookup-Promised q (none, r ∷ rs) f = (
  refl,
  λ e. ground arith,
  omega (arith, length-take 2 rs),
  All-take (Similar q (tokens q.clause.text)) 3 (r ∷ rs) f.near_fine,
)

-- Every lookup keeps its promise, whatever is stored: a verdict is offered for reuse only from an
-- unassisted, verified, decisive record of the same clause and effective version, and of the same
-- citation and title where the record and the query have them, and only under a citation;
-- otherwise at most three similar records of other clauses are offered as context, or nothing.
pub retrieve-Promised : (q : Query) (m : ComplianceMemory) → Promised q (retrieve q m)
unfolding retrieve
retrieve-Promised q m = elim (Bool-cases m.enabled) [
  | inr off ↦ rw off (refl, refl)
  | inl on ↦ elim (Option-cases (load m.store)) [
    | inl unreadable ↦ rw (on, unreadable) (refl, refl)
    | inr (loaded, read) ↦
        rw (on, read)
          (make_lookup-Promised q (consider_all q (tokens q.clause.text) (none, []) (parsed loaded))
            (Fine-consider_all q (tokens q.clause.text) (none, []) (parsed loaded)
              (record { exact_fine = tt; near_fine = tt })))
  ]
]

pub Offers-exact :
    (q : Query) (mt : MatchType) (e : Option MemoryRecord) (n : List MemoryRecord)
    → Offers q mt e n
    → mt ≡ exact
    → (rec : MemoryRecord) × (e ≡ some rec) × Reusable rec q
Offers-exact q exact e n h is_exact = h
Offers-exact q near e n h is_exact = absurd (ground arith)
Offers-exact q no_match e n h is_exact = absurd (ground arith)

-- Without an effective version there is never a verdict to reuse.
pub retrieve-unversioned :
    (q : Query) (m : ComplianceMemory)
    → q.effective_version ≡ ""
    → (retrieve q m).match_type ≢ exact
retrieve-unversioned q m h e =
    let l = retrieve q m in
    let (rec, found, reusable) =
      Offers-exact q l.match_type l.exact_record l.near_records (retrieve-Promised q m) e in
    false≢true (sym (ap truthy h) ∙ reusable.versioned)
