-- ===== src/Pipeline/Evaluation.antt =====
-- `_evaluate_match` of agent/compliance_pipeline.py, cut where it awaits the model: what runs before
-- is `begin_match`, what runs after is `finish_match`. The texts of exceptions are left out of the
-- reasons, and logging is.
use Prim.Native.String.{◌++◌}
use cfr_compliance_mcp.Prelude.{
  ℕ, String, Bool, true, false, not, ◌&&◌, all, Option, none, some, [], ◌∷◌, text_or, if◌then◌else◌,
}
use cfr_compliance_mcp.Prelude.Int.{ℤ}
use cfr_compliance_mcp.Models.{ComplianceResult, needs_review, verified, status_text, status_eq}
use cfr_compliance_mcp.Security.Gate.{check_clause_security}
use cfr_compliance_mcp.Rules.Checks.{evaluate_deterministic}
use cfr_compliance_mcp.Verification.Checks.{
  VerificationReport, Recommendation, accept, review, reject, verify_compliance,
}
use cfr_compliance_mcp.Memory.Records.{
  StoredPassage, accepted, refused, MemoryRecord, MemoryLookup, exact, near, no_match, participated,
}
use cfr_compliance_mcp.Memory.Retrieval.{Query, ComplianceMemory, retrieve}
use cfr_compliance_mcp.Agent.{LlmRequest, LlmAnswer, result_of_answer}
use cfr_compliance_mcp.Pipeline.Match.{CfrMatch, parse_title, title_or_none, title_number}
use cfr_compliance_mcp.Pipeline.Results.{
  enrich_evidence, build_audit, review_result, result_from_memory_record, index_verified,
}

-- An evaluation that waits for the model.
pub record Pending : Type 0 where
  pub match : CfrMatch
  pub citation : String
  pub cfr_text : String
  pub title : ℕ
  pub deterministic : ComplianceResult
  pub request : LlmRequest
  pub memory_assisted : Bool

pub data Progress : Type 0 where
  raised : Progress
  finished : ComplianceResult → Progress
  waiting : Pending → Progress

-- Citation and text of a retrieval that can be used.
unfoldable pub usable : CfrMatch → Option (String × String)
usable m = elim m.error [
  | some e ↦ none
  | none ↦ elim m.citation [
    | none ↦ none
    | some citation ↦ elim m.regulation_text [ none ↦ none | some text ↦ some (citation, text) ]
  ]
]

unusable_reason : CfrMatch → String
unusable_reason m = elim m.error [
  | none ↦ "CFR retrieval returned no citation/regulation text"
  | some e ↦ text_or e "CFR retrieval returned no citation/regulation text"
]

abbrev pub Memory : Type 0
Memory = Option ComplianceMemory

unfoldable pub look_up : Query → Memory → Option MemoryLookup
look_up q none = none
look_up q (some m) = some (retrieve q m)

-- The record of an exact match.
unfoldable pub exact_of : Option MemoryLookup → Option MemoryRecord
exact_of none = none
exact_of (some l) = elim l.match_type [ exact ↦ l.exact_record | near ↦ none | no_match ↦ none ]

unfoldable pub is_assisted : Option MemoryLookup → Bool
is_assisted none = false
is_assisted (some l) = participated l

-- The historical context, rendered when there are near records.
unfoldable pub context_of : Option MemoryLookup → Option MemoryLookup
context_of none = none
context_of (some l) = elim l.near_records [ [] ↦ none | ◌∷◌ r rs ↦ some l ]

-- Whether `format_historical_context` can join the citations of the records that it renders.
abbrev pub joins : StoredPassage → Bool
joins (accepted ev) = true
joins (refused text) = text

abbrev pub citations_join : MemoryRecord → Bool
citations_join rec = all joins rec.evidence

abbrev pub exact_joins : Option MemoryRecord → Bool
exact_joins none = true
exact_joins (some rec) = citations_join rec

-- Otherwise the rendering raises; it runs when there are near records.
unfoldable pub can_render : Option MemoryLookup → Bool
can_render none = true
can_render (some l) = elim l.near_records [
  | [] ↦ true
  | ◌∷◌ r rs ↦ exact_joins l.exact_record && all citations_join (r ∷ rs)
]

abbrev pub query_of : CfrMatch → String → ℕ → Query
query_of m citation title = record {
  clause = m.clause;
  citation = citation;
  title = title;
  effective_version = m.effective_version;
}

-- The answer's evidence gets the provenance of the retrieval.
abbrev pub enriched : Pending → ComplianceResult → ComplianceResult
enriched p r = record r { evidence = enrich_evidence r.evidence p.match }

module _ (sha256_hex : String → String) (now : String) where
  unfoldable pub deterministic_result : CfrMatch → ComplianceResult → ComplianceResult
  deterministic_result m det = record {
    clause_title = m.clause.title;
    clause_id = m.clause.clause_id;
    status = det.status;
    confidence = det.confidence;
    reason = det.reason;
    evidence = enrich_evidence det.evidence m;
    verification_status = verified;
    review_reason = "";
    review_audit =
        some (build_audit now (status_text det.status) (some det) none (status_text det.status) "");
    memory_participated = false;
  }

  -- Steps 2 and 3: the rules, then the question to the model.
  unfoldable pub begin_rules :
      CfrMatch → String → String → ℕ → Option MemoryLookup → Memory → Progress × Memory
  begin_rules m citation text title found memory =
      let det = evaluate_deterministic m.clause text title m.part m.section in
      if status_eq det.status needs_review
      then (
        waiting (record {
          match = m;
          citation = citation;
          cfr_text = text;
          title = title;
          deterministic = det;
          request = record {
            clause_title = m.clause.title;
            clause_text = m.clause.text;
            cfr_citation = citation;
            cfr_text = text;
            historical_context = context_of found;
          };
          memory_assisted = is_assisted found;
        }),
        memory,
      )
      else (
        finished (deterministic_result m det),
        index_verified sha256_hex now (deterministic_result m det) m citation title false memory,
      )

  -- Step 1b: the reuse of a verdict.
  unfoldable pub begin_memory :
      CfrMatch → String → String → ℕ → Option MemoryLookup → Memory → Progress × Memory
  begin_memory m citation text title found memory = elim (exact_of found) [
    | none ↦
        if can_render found
        then begin_rules m citation text title found memory
        else (raised, memory)
    | some rec ↦ elim (result_from_memory_record now rec) [
      | none ↦ (raised, memory)
      | some r ↦ (finished r, memory)
    ]
  ]

  -- Steps 0 and 1: the gate, and the use of the retrieval.
  unfoldable pub begin_titled : CfrMatch → ℤ → Memory → Progress × Memory
  unfolding unusable_reason
  begin_titled m title memory =
      let gate = check_clause_security m.clause (title_or_none title) m.regulation_text in
      if not gate.safe
      then (
        finished (
            review_result now m.clause ("Security check failed: " ++ gate.reason) none none
              "blocked_by_security"),
        memory,
      )
      else elim (usable m) [
        | none ↦ (finished (review_result now m.clause (unusable_reason m) none none ""), memory)
        | some (citation, text) ↦
            let n = title_number title in
            begin_memory m citation text n (look_up (query_of m citation n) memory) memory
      ]

  unfoldable pub begin_match : CfrMatch → Memory → Progress × Memory
  begin_match m memory = elim (parse_title m.citation) [
    | none ↦ (raised, memory)
    | some title ↦ begin_titled m title memory
  ]

  unfoldable pub accepted_result :
      Pending → ComplianceResult → VerificationReport → ComplianceResult
  accepted_result p r v = record r {
    verification_status = verified;
    review_reason = "";
    memory_participated = p.memory_assisted;
    review_audit = some (
        build_audit now (status_text r.status) (some r) (some v)
          (status_text p.deterministic.status) "");
  }

  unfoldable pub flagged_result : Pending → ComplianceResult → VerificationReport → ComplianceResult
  flagged_result p r v =
      review_result now p.match.clause (r.reason ++ " | Verification: " ++ v.notes) (some r)
        (some v) (status_text p.deterministic.status)

  -- Step 5, and the acceptance, for the verifier's recommendation.
  unfoldable pub finish_verified :
      Pending
      → ComplianceResult
      → VerificationReport
      → Recommendation
      → Memory
      → ComplianceResult × Memory
  finish_verified p r v accept memory = (
    accepted_result p r v,
    index_verified sha256_hex now (accepted_result p r v) p.match p.citation p.title
        p.memory_assisted memory,
  )
  finish_verified p r v review memory = (flagged_result p r v, memory)
  finish_verified p r v reject memory = (flagged_result p r v, memory)

  -- Step 4 on, for the answer of the model.
  unfoldable pub finish_match : Pending → Option LlmAnswer → Memory → ComplianceResult × Memory
  finish_match p answer memory = elim (result_of_answer sha256_hex p.request answer) [
    | none ↦ (
      review_result now p.match.clause "Compliance evaluation failed" none none
          (status_text p.deterministic.status),
      memory,
    )
    | some r ↦
        let v =
          verify_compliance (enriched p r) p.match.clause p.cfr_text p.title
            p.match.version_payload in
        finish_verified p (enriched p r) v v.recommendation memory
  ]
