-- ===== src/Pipeline/Results.antt =====
-- The results that agent/compliance_pipeline.py builds: `_enrich_evidence`, `_build_audit`,
-- `_needs_review`, `_result_from_memory_record` and `_index_verified`. `now` is what the clock
-- shows.
use cfr_compliance_mcp.Prelude.{
  ℕ, String, Bool, true, false, Option, none, some, List, [], ◌∷◌, map, keep, leb, truthy, text_or,
  if◌then◌else◌, ◌==◌,
}
use cfr_compliance_mcp.Prelude.Int.{ℤ, pos, negsuc}
use cfr_compliance_mcp.Models.{
  Clause, EvidencePassage, ReviewAudit, ComplianceResult, Status, compliant, non_compliant,
  needs_review, verified, to_review, status_text,
}
use cfr_compliance_mcp.Verification.Checks.{VerificationReport, recommendation_text}
use cfr_compliance_mcp.Memory.Records.{StoredPassage, accepted, refused, MemoryRecord}
use cfr_compliance_mcp.Memory.Retrieval.{ComplianceMemory}
use cfr_compliance_mcp.Memory.Indexing.{IndexRequest, index}
use cfr_compliance_mcp.Pipeline.Match.{CfrMatch}

-- `s or t`, where both may be absent.
option_or : Option String → Option String → Option String
option_or none t = t
option_or (some s) t = if truthy s then some s else t

unfoldable pub or_blank : Option String → String
or_blank none = ""
or_blank (some s) = s

unfoldable pub enrich_passage : CfrMatch → EvidencePassage → EvidencePassage
unfolding option_or or_blank
enrich_passage m ev = record ev {
  source = text_or m.source ev.source;
  retrieved_at = text_or m.retrieved_at ev.retrieved_at;
  retrieval_method = text_or m.retrieval_method ev.retrieval_method;
  version = text_or m.version ev.version;
  date = text_or m.date ev.date;
  part = option_or ev.part m.part;
  section = option_or ev.section m.section;
  citation = text_or ev.citation (or_blank m.citation);
}

-- `_enrich_evidence`.
unfoldable pub enrich_evidence : List EvidencePassage → CfrMatch → List EvidencePassage
enrich_evidence evidence m = map (enrich_passage m) evidence

unfoldable pub citations_of : List EvidencePassage → List String
citations_of evidence = keep truthy (map (λ ev. ev.citation) evidence)

unfoldable pub evidence_of : Option ComplianceResult → List EvidencePassage
evidence_of none = []
evidence_of (some r) = r.evidence

-- `_build_audit`.
unfoldable pub build_audit :
    String
    → String
    → Option ComplianceResult
    → Option VerificationReport
    → String
    → String
    → ReviewAudit
unfolding citations_of evidence_of
build_audit now final_status proposed verification deterministic_status reason = record {
  final_status = final_status;
  proposed_status = elim proposed [ none ↦ "" | some r ↦ status_text r.status ];
  proposed_confidence = elim proposed [ none ↦ 0 | some r ↦ r.confidence ];
  review_reason = reason;
  verifier_recommendation = elim verification [
    | none ↦ "not_run"
    | some v ↦ recommendation_text v.recommendation
  ];
  verifier_notes = elim verification [ none ↦ "" | some v ↦ v.notes ];
  deterministic_status = deterministic_status;
  evidence_citations = citations_of (evidence_of proposed);
  reviewed_at = now;
}

-- `_needs_review`.
unfoldable pub review_result :
    String
    → Clause
    → String
    → Option ComplianceResult
    → Option VerificationReport
    → String
    → ComplianceResult
unfolding evidence_of
review_result now clause reason proposed verification deterministic_status = record {
  clause_title = clause.title;
  clause_id = clause.clause_id;
  status = needs_review;
  confidence = 0;
  reason = reason;
  evidence = evidence_of proposed;
  verification_status = to_review;
  review_reason = reason;
  review_audit =
      some (build_audit now "Needs Review" proposed verification deterministic_status reason);
  memory_participated = false;
}

-- The model's validation of a stored status; `none` is an exception.
unfoldable pub parse_status : String → Option Status
parse_status s =
    if s == "Compliant"
    then some compliant
    else if s == "Non-Compliant"
    then some non_compliant
    else if s == "Needs Review"
    then some needs_review
    else none

abbrev pub reuse_notes : String
reuse_notes =
    "Verdict reused from a verified historical memory record after compatibility checks passed; current authoritative CFR retrieval confirmed. Historical memory is contextual precedent only, never a source of regulatory truth."

abbrev pub unrated_passage : EvidencePassage → EvidencePassage
unrated_passage ev = record ev { confidence = none }

-- The model's validation of a stored confidence, from 0 to 1.
unfoldable pub parse_confidence : ℤ → Option ℕ
parse_confidence (pos n) = if leb n 100 then some n else none
parse_confidence (negsuc n) = none

-- The passages, if each of the stored dictionaries makes one.
unfoldable pub parse_evidence : List StoredPassage → Option (List EvidencePassage)
parse_evidence [] = some []
parse_evidence (refused joins ∷ rest) = none
parse_evidence (accepted ev ∷ rest) = elim (parse_evidence rest) [
  | none ↦ none
  | some evs ↦ some (unrated_passage ev ∷ evs)
]

-- What `_result_from_memory_record` builds around the values that passed.
unfoldable pub reused_result :
    String → MemoryRecord → Status → ℕ → List EvidencePassage → ComplianceResult
unfolding citations_of
reused_result now rec status confidence evidence = record {
  clause_title = rec.clause_title;
  clause_id = rec.clause_id;
  status = status;
  confidence = confidence;
  reason = rec.reason;
  evidence = evidence;
  verification_status = verified;
  review_reason = "";
  review_audit = some (record {
    final_status = rec.status;
    proposed_status = rec.status;
    proposed_confidence = confidence;
    review_reason = "";
    verifier_recommendation = "memory_reuse";
    verifier_notes = reuse_notes;
    deterministic_status = "memory_reuse";
    evidence_citations = citations_of evidence;
    reviewed_at = now;
  });
  memory_participated = true;
}

-- `_result_from_memory_record`; `none` is the exception of a value that a model does not accept.
unfoldable pub result_from_memory_record : String → MemoryRecord → Option ComplianceResult
unfolding parse_evidence parse_confidence
result_from_memory_record now rec = elim (parse_evidence rec.evidence) [
  | none ↦ none
  | some evidence ↦ elim (parse_status rec.status) [
    | none ↦ none
    | some status ↦ elim (parse_confidence rec.confidence) [
      | none ↦ none
      | some confidence ↦ some (reused_result now rec status confidence evidence)
    ]
  ]
]

abbrev pub index_request : String → CfrMatch → String → ℕ → IndexRequest
index_request now m citation title = record {
  clause = m.clause;
  citation = citation;
  title = title;
  effective_version = m.effective_version;
  date = m.date;
  version_specific = m.version_specific;
  source = m.source;
  retrieval_method = m.retrieval_method;
  retrieved_at = m.retrieved_at;
  memory_assisted = false;
  now = now;
}

-- `_index_verified`: the decision of `index` is dropped. The citation is one that was retrieved.
unfoldable pub index_verified :
    (String → String)
    → String
    → ComplianceResult
    → CfrMatch
    → String
    → ℕ
    → Bool
    → Option ComplianceMemory
    → Option ComplianceMemory
index_verified sha256_hex now result m citation title memory_assisted none = none
index_verified sha256_hex now result m citation title memory_assisted (some memory) =
    if memory_assisted
    then some memory
    else some (index sha256_hex result (index_request now m citation title) memory).1
