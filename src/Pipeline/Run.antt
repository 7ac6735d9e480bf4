-- ===== src/Pipeline/Run.antt =====
-- `run_compliance_pipeline` of agent/compliance_pipeline.py as a whole, with `retrieve_for_clauses` of
-- agent/mcp_search.py. The retrievals share no state, so their order does not matter; the tools
-- answer a call by its arguments.
use cfr_compliance_mcp.Prelude.{
  ℕ, String, ◌≡◌, refl, ◌⊎◌, inl, inr, false, Option, none, some, List, [], ◌∷◌, map,
}
use cfr_compliance_mcp.Models.{Clause, ComplianceResult}
use cfr_compliance_mcp.Agent.{LlmRequest, LlmAnswer}
use cfr_compliance_mcp.Retrieval.Candidates.{SearchHit}
use cfr_compliance_mcp.Retrieval.Fetch.{Fetch, Tools, retrieve_for_clause}
use cfr_compliance_mcp.Retrieval.Labels.{Labelled, retrieve_for_clause-Labelled}
use cfr_compliance_mcp.Pipeline.Match.{CfrMatch}
use cfr_compliance_mcp.Pipeline.Evaluation.{Memory}
use cfr_compliance_mcp.Pipeline.Schedule.{evaluate_matches}
use cfr_compliance_mcp.Pipeline.Trust.{trusted}
use cfr_compliance_mcp.Pipeline.Outcome.{Sound}
use cfr_compliance_mcp.Pipeline.Interleaving.{Pairwise, Unreadable, evaluate_matches-Sound}

-- What the run is given from outside.
pub record World : Type 0 where
  pub sha256_hex : String → String
  pub now : String
  pub search : String → Fetch (List SearchHit)
  pub tools : Tools
  pub llm : LlmRequest → Option LlmAnswer

abbrev pub retrieve_clause : World → Clause → CfrMatch
retrieve_clause w clause = retrieve_for_clause w.now w.tools clause w.search

-- `retrieve_for_clauses`.
unfoldable pub retrieve_for_clauses : World → List Clause → List CfrMatch
retrieve_for_clauses w clauses = map (retrieve_clause w) clauses

unfoldable pub run_compliance_pipeline :
    World → List ℕ → List Clause → Memory → Option (List ComplianceResult) × Memory
run_compliance_pipeline w schedule [] memory = (some [], memory)
run_compliance_pipeline w schedule (clause ∷ clauses) memory =
    evaluate_matches w.sha256_hex w.now w.llm schedule (retrieve_for_clauses w (clause ∷ clauses))
      memory

-- The result answers the clause: it is sound for the match that the retrieval found, which says
-- truly what it has.
abbrev pub Answers : World → Clause → ComplianceResult → Type 0
Answers w clause r =
    (m : CfrMatch) × (m ≡ retrieve_clause w clause) × Labelled w.now w.tools clause m × Sound m r

Answers-map :
    (w : World) (clauses : List Clause) (rs : List ComplianceResult)
    → Pairwise Sound (map (retrieve_clause w) clauses) rs
    → Pairwise (Answers w) clauses rs
Answers-map w [] [] h = tt
Answers-map w [] (r ∷ rs) h = absurd h
Answers-map w (clause ∷ clauses) [] h = absurd h
Answers-map w (clause ∷ clauses) (r ∷ rs) h = (
  (retrieve_clause w clause, refl, retrieve_for_clause-Labelled w.now w.tools clause w.search, h.0),
  Answers-map w clauses rs h.1,
)

-- From the clauses on, for any memory, tools, model and order of answers: one result for each
-- clause, in order, each Needs Review or verified for an admitted match whose text and version are
-- those that were fetched; or the run raises, and then some retrieved citation has no readable
-- title, or the memory's file has a record with a confidence or with evidence that the models do not
-- accept.
pub run_compliance_pipeline-Answers :
    (w : World) (schedule : List ℕ) (clauses : List Clause) (memory : Memory)
    → let out = (run_compliance_pipeline w schedule clauses memory).0 in
      ((rs : List ComplianceResult) × (out ≡ some rs) × Pairwise (Answers w) clauses rs)
      ⊎ ((out ≡ none) × (Unreadable (retrieve_for_clauses w clauses) ⊎ (trusted memory ≡ false)))
unfolding run_compliance_pipeline retrieve_for_clauses
run_compliance_pipeline-Answers w schedule [] memory = inl ([], refl, tt)
run_compliance_pipeline-Answers w schedule (clause ∷ clauses) memory =
    elim (evaluate_matches-Sound w.sha256_hex w.now w.llm schedule
      (map (retrieve_clause w) (clause ∷ clauses)) memory) [
        | inl (rs, found, sound) ↦ inl (rs, found, Answers-map w (clause ∷ clauses) rs sound)
        | inr raised ↦ inr raised
      ]
