-- ===== src/Pipeline/Provenance.antt =====
-- Where the provenance of the evidence comes from: `_enrich_evidence` of
-- agent/compliance_pipeline.py and `_coerce_evidence` of agent/compliance_agent.py.
use cfr_compliance_mcp.Prelude.{
  ℕ, String, ◌≡◌, refl, inl, inr, Option, none, some, List, [], ◌∷◌, All, Option-cases, text_or,
  arith, subst,
}
use cfr_compliance_mcp.Models.{make_clause, EvidencePassage, ComplianceResult}
use cfr_compliance_mcp.Verification.Checks.{
  VerificationReport, Recommendation, accept, review, reject, verify_compliance,
}
use cfr_compliance_mcp.Agent.{
  LlmRequest, LlmAnswer, LlmEvidence, coerce_evidence, coerce_all, validate_confidence,
  build_result, result_of_answer,
}
use cfr_compliance_mcp.Pipeline.Match.{CfrMatch}
use cfr_compliance_mcp.Pipeline.Results.{enrich_passage, enrich_evidence, review_result}
use cfr_compliance_mcp.Pipeline.Evaluation.{
  Pending, Memory, accepted_result, flagged_result, finish_verified, enriched, finish_match,
}

-- The passage claims no provenance.
abbrev pub Blank : EvidencePassage → Type 0
Blank ev =
    (ev.source ≡ "")
    × (ev.retrieved_at ≡ "")
    × (ev.retrieval_method ≡ "")
    × (ev.version ≡ "")
    × (ev.date ≡ "")

-- The passage's provenance is the retrieval's.
abbrev pub FromRetrieval : CfrMatch → EvidencePassage → Type 0
FromRetrieval m ev =
    (ev.source ≡ m.source)
    × (ev.retrieved_at ≡ m.retrieved_at)
    × (ev.retrieval_method ≡ m.retrieval_method)
    × (ev.version ≡ m.version)
    × (ev.date ≡ m.date)

text_or-blank : (s t : String) → t ≡ "" → text_or s t ≡ s
text_or-blank String.[] t h = h
text_or-blank (String.◌∷◌ c s) t h = refl

enrich-FromRetrieval :
    (m : CfrMatch) (evidence : List EvidencePassage)
    → All Blank evidence
    → All (FromRetrieval m) (enrich_evidence evidence m)
unfolding enrich_evidence enrich_passage
enrich-FromRetrieval m [] h = tt
enrich-FromRetrieval m (ev ∷ rest) (blank, h) = (
  (
    text_or-blank m.source ev.source blank.0,
    text_or-blank m.retrieved_at ev.retrieved_at blank.1,
    text_or-blank m.retrieval_method ev.retrieval_method blank.2,
    text_or-blank m.version ev.version blank.3,
    text_or-blank m.date ev.date blank.4,
  ),
  enrich-FromRetrieval m rest h,
)

coerce_all-Blank : (evidence : List (Option LlmEvidence)) → All Blank (coerce_all evidence)
unfolding coerce_all coerce_evidence
coerce_all-Blank [] = tt
coerce_all-Blank (none ∷ rest) = coerce_all-Blank rest
coerce_all-Blank (some ev ∷ rest) = ((refl, refl, refl, refl, refl), coerce_all-Blank rest)

build_result-Blank :
    (title clause_id : String) (q : LlmRequest) (a : LlmAnswer) (c : Option ℕ)
    (r : ComplianceResult)
    → build_result title clause_id q a c ≡ some r
    → All Blank r.evidence
unfolding build_result
build_result-Blank title clause_id q a none r h = absurd (ground arith)
build_result-Blank title clause_id q a (some c) r h =
    let same : coerce_all a.evidence ≡ r.evidence = ground arith in
    subst (All Blank) same (coerce_all-Blank a.evidence)

module _ (sha256_hex : String → String) where
  -- Whatever the model claims of its evidence, no source, retrieval, version or date of it survives.
  pub result_of_answer-Blank :
      (q : LlmRequest) (answer : Option LlmAnswer) (r : ComplianceResult)
      → result_of_answer sha256_hex q answer ≡ some r
      → All Blank r.evidence
  unfolding result_of_answer validate_confidence
  result_of_answer-Blank q none r h = absurd (ground arith)
  result_of_answer-Blank q (some a) r h =
      build_result-Blank q.clause_title
        (make_clause sha256_hex q.clause_title q.clause_text).clause_id q a
        (validate_confidence a.confidence) r h

  finish_verified-FromRetrieval :
      (now : String) (p : Pending) (r : ComplianceResult) (v : VerificationReport)
      (k : Recommendation) (memory : Memory)
      → All (FromRetrieval p.match) r.evidence
      → All (FromRetrieval p.match) (finish_verified sha256_hex now p r v k memory).0.evidence
  unfolding finish_verified accepted_result flagged_result review_result
  finish_verified-FromRetrieval now p r v accept memory h = h
  finish_verified-FromRetrieval now p r v review memory h = h
  finish_verified-FromRetrieval now p r v reject memory h = h

  -- Every passage of a result that the model took part in, also of one for review, has the source,
  -- the time and method of retrieval, the version and the date of the match, whatever the model
  -- answered.
  pub finish_match-FromRetrieval :
      (now : String) (p : Pending) (answer : Option LlmAnswer) (memory : Memory)
      → All (FromRetrieval p.match) (finish_match sha256_hex now p answer memory).0.evidence
  unfolding finish_match review_result
  finish_match-FromRetrieval now p answer memory =
      elim (Option-cases (result_of_answer sha256_hex p.request answer)) [
        | inl failed ↦ rw (failed, finish_match) tt
        | inr (r, made) ↦
            let v =
              verify_compliance (enriched p r) p.match.clause p.cfr_text p.title
                p.match.version_payload in
            rw (made, finish_match)
              (finish_verified-FromRetrieval now p (enriched p r) v v.recommendation memory (
                enrich-FromRetrieval p.match r.evidence
                  (result_of_answer-Blank p.request answer r made)))
      ]
