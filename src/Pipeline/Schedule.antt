-- ===== src/Pipeline/Schedule.antt =====
-- `run_compliance_pipeline` of agent/compliance_pipeline.py on the matches of the retrieval. All
-- tasks are created before the first runs, so each runs up to its await before any answer of the
-- model is taken; the answers then come in any order, which is the schedule.
use cfr_compliance_mcp.Prelude.{ℕ, zero, suc, String, Option, none, some, List, [], ◌∷◌}
use cfr_compliance_mcp.Models.{ComplianceResult}
use cfr_compliance_mcp.Agent.{LlmRequest, LlmAnswer}
use cfr_compliance_mcp.Pipeline.Match.{CfrMatch}
use cfr_compliance_mcp.Pipeline.Evaluation.{
  Progress, raised, finished, waiting, Memory, begin_match, finish_match,
}

-- `asyncio.gather`: one task that raised makes the whole call raise, which is `none`.
unfoldable pub gather : List Progress → Option (List ComplianceResult)
gather [] = some []
gather (raised ∷ ps) = none
gather (waiting p ∷ ps) = none
gather (finished r ∷ ps) = elim (gather ps) [ none ↦ none | some rs ↦ some (r ∷ rs) ]

module _ (sha256_hex : String → String) (now : String) (llm : LlmRequest → Option LlmAnswer) where
  unfoldable pub begin_all : List CfrMatch → Memory → List Progress × Memory
  begin_all [] memory = ([], memory)
  begin_all (m ∷ ms) memory =
      let (p, memory') = begin_match sha256_hex now m memory in
      let (ps, memory'') = begin_all ms memory' in (p ∷ ps, memory'')

  -- A task resumes with its answer; one that has ended stays as it is.
  unfoldable pub resume : Progress → Memory → Progress × Memory
  resume raised memory = (raised, memory)
  resume (finished r) memory = (finished r, memory)
  resume (waiting p) memory =
      let (r, memory') = finish_match sha256_hex now p (llm p.request) memory in
      (finished r, memory')

  -- The answer of task `i` arrives.
  unfoldable pub resume_at : ℕ → List Progress → Memory → List Progress × Memory
  resume_at i [] memory = ([], memory)
  resume_at zero (p ∷ ps) memory = let (p', memory') = resume p memory in (p' ∷ ps, memory')
  resume_at (suc i) (p ∷ ps) memory =
      let (ps', memory') = resume_at i ps memory in (p ∷ ps', memory')

  unfoldable pub resume_each : List ℕ → List Progress → Memory → List Progress × Memory
  resume_each [] ps memory = (ps, memory)
  resume_each (i ∷ schedule) ps memory =
      let (ps', memory') = resume_at i ps memory in resume_each schedule ps' memory'

  -- The tasks that the schedule left waiting end in the order of the matches.
  unfoldable pub resume_rest : List Progress → Memory → List Progress × Memory
  resume_rest [] memory = ([], memory)
  resume_rest (p ∷ ps) memory =
      let (p', memory') = resume p memory in
      let (ps', memory'') = resume_rest ps memory' in (p' ∷ ps', memory'')

  unfoldable pub evaluate_matches :
      List ℕ → List CfrMatch → Memory → Option (List ComplianceResult) × Memory
  evaluate_matches schedule ms memory =
      let (ps, memory1) = begin_all ms memory in
      let (ps', memory2) = resume_each schedule ps memory1 in
      let (ps'', memory3) = resume_rest ps' memory2 in (gather ps'', memory3)
