-- ===== src/Pipeline/Feedback.antt =====
-- What a task of agent/compliance_pipeline.py does to the memory: no feedback loop.
use cfr_compliance_mcp.Prelude.{
  ℕ, String, ◌≡◌, refl, ◌⊎◌, inl, inr, Bool, true, false, Option, none, some, List, [], ◌∷◌, ◌++◌,
  Option-cases, ap,
}
use cfr_compliance_mcp.Models.{ComplianceResult, verified, verification_text}
use cfr_compliance_mcp.Verification.Checks.{
  VerificationReport, Recommendation, accept, review, reject, verify_compliance,
}
use cfr_compliance_mcp.Memory.Records.{MemoryRecord}
use cfr_compliance_mcp.Memory.Store.{Line, line_of}
use cfr_compliance_mcp.Memory.Indexing.{build_record}
use cfr_compliance_mcp.Memory.Growth.{index_cases, eligible-verified}
use cfr_compliance_mcp.Agent.{LlmAnswer, result_of_answer}
use cfr_compliance_mcp.Pipeline.Match.{CfrMatch}
use cfr_compliance_mcp.Pipeline.Results.{index_request, index_verified}
use cfr_compliance_mcp.Pipeline.Evaluation.{
  Pending, Memory, accepted_result, finish_verified, enriched, finish_match,
}

-- The lines of the memory's file; without a memory there are none.
abbrev pub lines_of : Memory → List Line
lines_of none = []
lines_of (some m) = m.store.lines

-- The file is as it was, or got one line, of a verified result that used no memory.
abbrev pub Indexes : CfrMatch → ComplianceResult → Memory → Memory → Type 0
Indexes m r before after =
    (lines_of after ≡ lines_of before)
    ⊎ ((r.memory_participated ≡ false)
        × (r.verification_status ≡ verified)
        × ((rec : MemoryRecord) × (lines_of after ≡ lines_of before ++ line_of rec ∷ [])
            × (rec.clause_id ≡ m.clause.clause_id)
            × (rec.memory_assisted ≡ false)
            × (rec.verification_status ≡ "verified")))

module _ (sha256_hex : String → String) (now : String) where
  pub index_verified-Indexes :
      (r : ComplianceResult) (m : CfrMatch) (citation : String) (title : ℕ) (assisted : Bool)
      (memory : Memory)
      → r.memory_participated ≡ assisted
      → Indexes m r memory (index_verified sha256_hex now r m citation title assisted memory)
  unfolding index_verified build_record
  index_verified-Indexes r m citation title assisted none h = inl refl
  index_verified-Indexes r m citation title true (some c) h = inl refl
  index_verified-Indexes r m citation title false (some c) h =
      elim (index_cases sha256_hex r (index_request now m citation title) c) [
        | inl same ↦ inl same.1
        | inr (added, (on, alone, eligible)) ↦ inr (
          h,
          eligible-verified r eligible,
          (
            build_record sha256_hex r (index_request now m citation title),
            added.1,
            refl,
            refl,
            ap verification_text (eligible-verified r eligible),
          ),
        )
      ]

  finish_verified-Indexes :
      (p : Pending) (r : ComplianceResult) (v : VerificationReport) (k : Recommendation)
      (memory : Memory)
      → let out = finish_verified sha256_hex now p r v k memory in
        Indexes p.match out.0 memory out.1
  unfolding finish_verified accepted_result
  finish_verified-Indexes p r v accept memory =
      index_verified-Indexes (accepted_result sha256_hex now p r v) p.match p.citation p.title
        p.memory_assisted memory refl
  finish_verified-Indexes p r v review memory = inl refl
  finish_verified-Indexes p r v reject memory = inl refl

  -- An answer of the model leaves the memory's file as it was, or adds one line behind the others:
  -- then the result is verified and used no memory, and the line is a verified and unassisted
  -- record of its clause.
  pub finish_match-Indexes :
      (p : Pending) (answer : Option LlmAnswer) (memory : Memory)
      → let out = finish_match sha256_hex now p answer memory in Indexes p.match out.0 memory out.1
  unfolding finish_match
  finish_match-Indexes p answer memory =
      elim (Option-cases (result_of_answer sha256_hex p.request answer)) [
        | inl failed ↦ rw (failed, finish_match) (inl refl)
        | inr (r, made) ↦
            let v =
              verify_compliance (enriched p r) p.match.clause p.cfr_text p.title
                p.match.version_payload in
            rw (made, finish_match)
              (finish_verified-Indexes p (enriched p r) v v.recommendation memory)
      ]
