-- ===== src/Memory/Indexing.antt =====
-- `is_eligible` and `ComplianceMemory.index`: agent/memory.py.
use cfr_compliance_mcp.Prelude.{
  ℕ, String, Bool, true, false, not, ◌&&◌, Option, none, some, List, [], ◌∷◌, all, mem_text, truthy,
  ◌==◌, if◌then◌else◌,
}
use mathlib.Core.List as Lists
use cfr_compliance_mcp.Prelude.Int.{pos}
use cfr_compliance_mcp.Models.{
  Clause, EvidencePassage, ReviewAudit, ComplianceResult, verified, to_review, not_verified,
  status_text, verification_text,
}
use cfr_compliance_mcp.Memory.Records.{StoredPassage, accepted, MemoryRecord, make_record_id}
use cfr_compliance_mcp.Memory.Store.{Store, known_ids, append}
use cfr_compliance_mcp.Memory.Retrieval.{ComplianceMemory}

unfoldable pub audit_clear : Option ReviewAudit → Bool
audit_clear none = true
audit_clear (some audit) =
    not (audit.deterministic_status == "blocked_by_security") && not (truthy audit.review_reason)

unfoldable pub passage_complete : EvidencePassage → Bool
passage_complete ev =
    truthy ev.citation && truthy ev.text_span && truthy ev.source && truthy ev.retrieval_method

unfoldable pub is_eligible : ComplianceResult → Bool
unfolding audit_clear passage_complete
is_eligible result = elim result.verification_status [
  | verified ↦ elim result.evidence [
    | [] ↦ false
    | ◌∷◌ ev rest ↦ audit_clear result.review_audit && all passage_complete (ev ∷ rest)
  ]
  | to_review ↦ false
  | not_verified ↦ false
]

pub data IndexDecision : Type 0 where
  indexed skipped duplicate error : IndexDecision

-- The arguments of `index` beside the result.
pub record IndexRequest : Type 0 where
  pub clause : Clause
  pub citation : String
  pub title : ℕ
  pub effective_version : String
  pub date : String
  pub version_specific : Bool
  pub source : String
  pub retrieval_method : String
  pub retrieved_at : String
  pub memory_assisted : Bool
  pub now : String

abbrev pub unrated : EvidencePassage → StoredPassage
unrated ev = accepted (record ev { confidence = none })

or_empty : Option String → String
or_empty none = ""
or_empty (some s) = s

-- `result.evidence[0].part or ""`; an eligible result has evidence.
first_part : List EvidencePassage → String
first_part [] = ""
first_part (ev ∷ rest) = or_empty ev.part

first_section : List EvidencePassage → String
first_section [] = ""
first_section (ev ∷ rest) = or_empty ev.section

unfoldable pub appended :
    ComplianceMemory → Option (Bool × Store) → IndexDecision × ComplianceMemory
appended m none = (error, m)
appended m (some (wrote, s)) = (indexed, record m { store = s })

-- From the duplicate check on: `none` is an exception of the store.
unfoldable pub store_record :
    MemoryRecord
    → ComplianceMemory
    → Option (List String × Store)
    → IndexDecision × ComplianceMemory
unfolding appended
store_record rec m none = (error, m)
store_record rec m (some (ids, s)) =
    if mem_text rec.record_id ids
    then (duplicate, record m { store = s })
    else appended (record m { store = s }) (append rec s)

module _ (sha256_hex : String → String) where
  -- `_build_record`. A stored passage keeps everything but its confidence.
  unfoldable pub build_record : ComplianceResult → IndexRequest → MemoryRecord
  unfolding or_empty first_part first_section
  build_record result r = record {
    record_id = make_record_id sha256_hex r.clause.clause_id r.citation r.effective_version;
    clause_id = r.clause.clause_id;
    clause_title = r.clause.title;
    clause_text = r.clause.text;
    status = status_text result.status;
    confidence = pos result.confidence;
    reason = result.reason;
    citation = r.citation;
    title = r.title;
    part = first_part result.evidence;
    section = first_section result.evidence;
    effective_version = r.effective_version;
    date = r.date;
    version_specific = r.version_specific;
    verification_status = verification_text result.verification_status;
    evidence = Lists.map unrated result.evidence;
    source = r.source;
    retrieval_method = r.retrieval_method;
    retrieved_at = r.retrieved_at;
    indexed_at = r.now;
    memory_assisted = false;
  }

  -- Never fails: a disabled memory, an assisted or an ineligible result is skipped, and an exception
  -- of the store is an answer.
  unfoldable pub index :
      ComplianceResult → IndexRequest → ComplianceMemory → IndexDecision × ComplianceMemory
  unfolding store_record
  index result r m =
      if not m.enabled
      then (skipped, m)
      else if r.memory_assisted
      then (skipped, m)
      else if not (is_eligible result)
      then (skipped, m)
      else store_record (build_record result r) m (known_ids m.store)
