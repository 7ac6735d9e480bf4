-- ===== src/Review/Queries.antt =====
-- The read operations of `InMemoryRepository`: agent/persistence/inmemory_repository.py.
use cfr_compliance_mcp.Prelude.{
  ℕ, ◌+◌, String, Bool, true, Option, none, some, List, [], ◌∷◌, ◌==◌, ltb, map, keep, take, drop,
  length, truthy, sort_by, text_le, if◌then◌else◌,
}
use cfr_compliance_mcp.Prelude.Dict.{Dict, lookup, string_eq, pair_eq}
use cfr_compliance_mcp.Reporting.{ClauseReport, ReportRecord}
use cfr_compliance_mcp.Review.Records.{
  Result, ok, ◌>>=◌, or_raise, analysis_not_found, ReviewEvent, ReviewRecord, ReviewDetail,
  ReviewItem, AnalysisSummary, MetricsSummary,
}
use cfr_compliance_mcp.Review.Repository.{Repository, find_clause, detail}

-- `xs[offset : offset + limit]`, for numbers that are not negative.
unfoldable pub page {ℓ} : {A : Type ℓ} → ℕ → ℕ → List A → List A
page limit offset xs = take limit (drop offset xs)

unfoldable pub load_report : String → Repository → Result ReportRecord
load_report analysis_id repo = or_raise (lookup analysis_id repo.analyses) analysis_not_found

unfoldable pub summary : ReportRecord → AnalysisSummary
summary r = record {
  analysis_id = r.analysis_id;
  generated_at = r.generated_at;
  contract_id = r.contract_id;
  total_clauses = r.total_clauses;
  compliant = r.compliant;
  non_compliant = r.non_compliant;
  needs_review = r.needs_review;
}

-- `getattr(s, status, 0)` for the count columns and for a name that is no field. (The name of a
-- text field makes the source's comparison raise; it is no filter that a caller means.)
unfoldable pub count_column : AnalysisSummary → String → ℕ
count_column s status =
    if status == "compliant"
    then s.compliant
    else if status == "non_compliant"
    then s.non_compliant
    else if status == "needs_review"
    then s.needs_review
    else if status == "total_clauses"
    then s.total_clauses
    else 0

-- `not (status and getattr(s, status, 0) <= 0)`.
unfoldable pub analysis_matches : Option String → AnalysisSummary → Bool
unfolding count_column
analysis_matches none s = true
analysis_matches (some status) s = if truthy status then ltb 0 (count_column s status) else true

unfoldable pub list_analyses : Option String → ℕ → ℕ → Repository → List AnalysisSummary
list_analyses status limit offset repo = page limit offset (
    sort_by (λ s t. text_le t.generated_at s.generated_at)
      (keep (analysis_matches status) (map (λ e. summary e.1) repo.analyses)))

-- `list_analyses` is called with its default limit of 50.
unfoldable pub count_analyses : Option String → Repository → ℕ
count_analyses status repo = length (list_analyses status 50 0 repo)

sum_of : (ReportRecord → ℕ) → Dict String ReportRecord → ℕ
sum_of f [] = 0
sum_of f ((k, r) ∷ rest) = f r + sum_of f rest

unfoldable pub summarize : Repository → MetricsSummary
unfolding sum_of
summarize repo = record {
  total_analyses = length repo.analyses;
  total_clauses = sum_of (λ r. r.total_clauses) repo.analyses;
  compliant = sum_of (λ r. r.compliant) repo.analyses;
  non_compliant = sum_of (λ r. r.non_compliant) repo.analyses;
  needs_review = sum_of (λ r. r.needs_review) repo.analyses;
  review_pending = length (keep (λ e. e.1.state == "needs_review") repo.reviews);
}

-- `not (state and rec["state"] != state)`.
unfoldable pub review_matches : Option String → (String × String) × ReviewRecord → Bool
review_matches none e = true
review_matches (some state) e = if truthy state then e.1.state == state else true

clause_of : Repository → String → String → Option ClauseReport
clause_of repo analysis_id clause_id = elim (lookup analysis_id repo.analyses) [
  | none ↦ none
  | some report ↦ find_clause report clause_id
]

unfoldable pub review_item : Repository → (String × String) × ReviewRecord → ReviewItem
unfolding clause_of
review_item repo ((analysis_id, clause_id), rec) =
    let cr = clause_of repo analysis_id clause_id in
    record {
      analysis_id = analysis_id;
      clause_id = clause_id;
      clause_title = elim cr [ none ↦ "" | some c ↦ c.clause_title ];
      original_status = rec.original_status;
      verification_status = elim cr [ none ↦ "" | some c ↦ c.verification_status ];
      review_state = rec.state;
      version = rec.version;
      reviewer_identity = rec.reviewer_identity;
      decided_at = rec.decided_at;
    }

unfoldable pub list_review_queue : Option String → ℕ → ℕ → Repository → List ReviewItem
list_review_queue state limit offset repo = page limit offset (
    sort_by (λ a b. text_le a.analysis_id b.analysis_id)
      (map (review_item repo) (keep (review_matches state) repo.reviews)))

-- `list_review_queue` is called with its default limit of 50.
unfoldable pub count_review_queue : Option String → Repository → ℕ
count_review_queue state repo = length (list_review_queue state 50 0 repo)

unfoldable pub get_review : String → String → Repository → Result ReviewDetail
get_review analysis_id clause_id repo = do
  report ← or_raise (lookup analysis_id repo.analyses) analysis_not_found
  cr ← or_raise (find_clause report clause_id) analysis_not_found
  ok (detail analysis_id cr (lookup (analysis_id, clause_id) repo.reviews))

unfoldable pub list_review_events : String → String → Repository → List ReviewEvent
list_review_events analysis_id clause_id repo =
    elim (lookup (analysis_id, clause_id) repo.reviews) [ none ↦ [] | some r ↦ r.events ]
