-- ===== src/Memory/Retrieval.antt =====
-- `ComplianceMemory.retrieve` and its gates: agent/memory.py.
use cfr_compliance_mcp.Prelude.{
  ℕ, String, Bool, true, false, not, ◌&&◌, ◌||◌, Option, none, some, List, [], ◌∷◌, ◌++◌, nat_eq,
  take, truthy, ◌==◌, if◌then◌else◌,
}
use cfr_compliance_mcp.Models.{Clause}
use cfr_compliance_mcp.Memory.Records.{MemoryRecord, MemoryLookup, exact, near, no_lookup}
use cfr_compliance_mcp.Memory.Similarity.{tokens, near_enough, normalize_citation}
use cfr_compliance_mcp.Memory.Store.{Store, load}

-- What the current retrieval knows: the clause, the citation, the title and the version in effect.
pub record Query : Type 0 where
  pub clause : Clause
  pub citation : String
  pub title : ℕ
  pub effective_version : String

pub record ComplianceMemory : Type 0 where
  pub enabled : Bool
  pub store : Store

same_title : ℕ → ℕ → Bool
same_title a b = not (nat_eq a 0) && not (nat_eq b 0) && nat_eq b a

unfoldable pub compatible_scope : MemoryRecord → Query → Bool
unfolding same_title
compatible_scope rec q =
    if same_title q.title rec.title
    then true
    else if truthy q.citation && truthy rec.citation
    then normalize_citation q.citation == normalize_citation rec.citation
    else false

-- The gates of `_exact_reuse_allowed`, in its order.
unfoldable pub exact_reuse_allowed : MemoryRecord → Query → Bool
exact_reuse_allowed rec q =
    if not (rec.clause_id == q.clause.clause_id)
    then false
    else if not (rec.verification_status == "verified")
    then false
    else if rec.memory_assisted
    then false
    else if not (rec.status == "Compliant" || rec.status == "Non-Compliant")
    then false
    else if not (truthy q.citation)
    then false
    else if not (nat_eq q.title 0) && not (nat_eq rec.title 0) && not (nat_eq rec.title q.title)
    then false
    else if truthy rec.citation
        && not (normalize_citation rec.citation == normalize_citation q.citation)
    then false
    else if truthy q.effective_version && truthy rec.effective_version
    then q.effective_version == rec.effective_version
    else false

abbrev pub Found : Type 0
Found = Option MemoryRecord × List MemoryRecord

-- One round of the loop: the last exact record wins, and near records are collected in order.
unfoldable pub consider : Query → List String → Found → MemoryRecord → Found
consider q clause_tokens (exact_rec, near_recs) rec =
    if not (compatible_scope rec q)
    then (exact_rec, near_recs)
    else if rec.clause_id == q.clause.clause_id
    then (if exact_reuse_allowed rec q then some rec else exact_rec, near_recs)
    else elim clause_tokens [
      | [] ↦ (exact_rec, near_recs)
      | ◌∷◌ t ts ↦ (
        exact_rec,
        if near_enough (t ∷ ts) (tokens rec.clause_text) then near_recs ++ rec ∷ [] else near_recs,
      )
    ]

unfoldable pub consider_all : Query → List String → Found → List MemoryRecord → Found
consider_all q clause_tokens found [] = found
consider_all q clause_tokens found (rec ∷ recs) =
    consider_all q clause_tokens (consider q clause_tokens found rec) recs

-- At most three near records are surfaced, unless there is an exact one.
unfoldable pub make_lookup : Found → MemoryLookup
make_lookup (some rec, near_recs) = record {
  match_type = exact;
  exact_record = some rec;
  near_records = near_recs;
}
make_lookup (none, []) = no_lookup
make_lookup (none, r ∷ rs) = record {
  match_type = near;
  exact_record = none;
  near_records = take 3 (r ∷ rs);
}

-- The objects that parse, `_load_records`.
unfoldable pub parsed : List (Option String × Option MemoryRecord) → List MemoryRecord
parsed [] = []
parsed ((i, none) ∷ rest) = parsed rest
parsed ((i, some r) ∷ rest) = r ∷ parsed rest

-- A disabled memory and a store that cannot be read find nothing.
unfoldable pub retrieve : Query → ComplianceMemory → MemoryLookup
retrieve q m =
    if m.enabled
    then elim (load m.store) [
      | none ↦ no_lookup
      | some loaded ↦ make_lookup (consider_all q (tokens q.clause.text) (none, []) (parsed loaded))
    ]
    else no_lookup
