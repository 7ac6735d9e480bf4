-- ===== src/Review/Repository.antt =====
-- `InMemoryRepository` of agent/persistence/inmemory_repository.py: its state and the operations
-- that change it. An operation returns its result or the exception, and the state it leaves.
use cfr_compliance_mcp.Prelude.{
  ℕ, ◌+◌, String, Bool, ◌||◌, Option, none, some, List, [], ◌∷◌, ◌++◌, ◌==◌, nat_eq, if◌then◌else◌,
}
use cfr_compliance_mcp.Prelude.Dict.{Dict, lookup, insert, string_eq, pair_eq}
use cfr_compliance_mcp.Reporting.{ClauseReport, ReportRecord}
use cfr_compliance_mcp.Review.Lifecycle.{is_valid_state, validate_transition}
use cfr_compliance_mcp.Review.Records.{
  Result, ok, err, ◌>>=◌, ◌>>◌, require, or_raise, analysis_not_found, review_not_found,
  review_state, concurrency, ReviewEvent, ReviewRecord, ReviewDetail, Decision,
}

pub record Repository : Type 0 where
  pub analyses : Dict String ReportRecord
  pub reviews : Dict (String × String) ReviewRecord

abbrev pub empty : Repository
empty = record { analyses = []; reviews = [] }

-- The clause is in a review-required state.
unfoldable pub requires_review : ClauseReport → Bool
requires_review cr = cr.verification_status == "needs_review" || cr.status == "Needs Review"

unfoldable pub new_review : ClauseReport → ReviewRecord
new_review cr = record {
  state = "needs_review";
  version = 1;
  original_status = cr.status;
  reviewer_identity = "";
  decision_reason = "";
  decided_at = "";
  events = [];
}

-- `if key not in self._reviews: self._reviews[key] = {...}`.
open_absent :
    String × String
    → ClauseReport
    → Option ReviewRecord
    → Dict (String × String) ReviewRecord
    → Dict (String × String) ReviewRecord
open_absent key cr none reviews = insert key (new_review cr) reviews
open_absent key cr (some r) reviews = reviews

unfoldable pub open_review :
    String
    → ClauseReport
    → Dict (String × String) ReviewRecord
    → Dict (String × String) ReviewRecord
unfolding open_absent
open_review analysis_id cr reviews =
    let key : String × String = (analysis_id, cr.clause_id) in
    if requires_review cr then open_absent key cr (lookup key reviews) reviews else reviews

-- The loop of `save_report`.
unfoldable pub open_reviews :
    String
    → List ClauseReport
    → Dict (String × String) ReviewRecord
    → Dict (String × String) ReviewRecord
open_reviews analysis_id [] reviews = reviews
open_reviews analysis_id (cr ∷ rest) reviews =
    open_reviews analysis_id rest (open_review analysis_id cr reviews)

unfoldable pub save_report : ReportRecord → Repository → String × Repository
save_report report repo = (
  report.analysis_id,
  record {
    analyses = insert report.analysis_id report repo.analyses;
    reviews = open_reviews report.analysis_id report.clauses repo.reviews;
  },
)

find_in : String → List ClauseReport → Option ClauseReport
find_in clause_id [] = none
find_in clause_id (cr ∷ rest) =
    if cr.clause_id == clause_id then some cr else find_in clause_id rest

-- `_find_clause`: the first clause of the report with the id.
unfoldable pub find_clause : ReportRecord → String → Option ClauseReport
unfolding find_in
find_clause report clause_id = find_in clause_id report.clauses

-- `_detail`.
unfoldable pub detail : String → ClauseReport → Option ReviewRecord → ReviewDetail
detail analysis_id cr rec = record {
  analysis_id = analysis_id;
  clause_id = cr.clause_id;
  clause_title = cr.clause_title;
  original_status = cr.status;
  verification_status = cr.verification_status;
  reason = cr.reason;
  confidence = cr.confidence;
  memory_participated = cr.memory_participated;
  evidence = cr.evidence;
  review_audit = cr.review_audit;
  review_state = elim rec [ none ↦ none | some r ↦ some r.state ];
  version = elim rec [ none ↦ 0 | some r ↦ r.version ];
  reviewer_identity = elim rec [ none ↦ "" | some r ↦ r.reviewer_identity ];
  decision_reason = elim rec [ none ↦ "" | some r ↦ r.decision_reason ];
  decided_at = elim rec [ none ↦ "" | some r ↦ r.decided_at ];
  events = elim rec [ none ↦ [] | some r ↦ r.events ];
}

-- The state and the version that a decision starts from. A clause without a review record has
-- version 0 if it is in a review-required state, and no review otherwise.
unfoldable pub current_review : ClauseReport → Option ReviewRecord → Result (String × ℕ)
unfolding requires_review
current_review cr none = if requires_review cr then ok ("needs_review", 0) else err review_not_found
current_review cr (some r) = ok (r.state, r.version)

-- Everything that `transition_review` checks before it writes.
unfoldable pub admit :
    String → String → Decision → Repository → Result (ClauseReport × Option ReviewRecord × ℕ)
admit analysis_id clause_id d repo = do
  require (is_valid_state d.target_state) review_state
  report ← or_raise (lookup analysis_id repo.analyses) analysis_not_found
  cr ← or_raise (find_clause report clause_id) analysis_not_found
  let rec = lookup (analysis_id, clause_id) repo.reviews
  (state, version) ← current_review cr rec
  require (validate_transition state d.target_state) review_state
  require (nat_eq d.expected_version version) concurrency
  ok (cr, rec, version)

unfoldable pub review_event : Decision → ReviewEvent
review_event d = record {
  state = d.target_state;
  reason = d.reason;
  reviewer_identity = d.reviewer_identity;
  created_at = d.now;
}

-- The record after the write: a new one, or the old one updated, with the event appended.
unfoldable pub decided : ClauseReport → Option ReviewRecord → ℕ → Decision → ReviewRecord
unfolding review_event
decided cr rec version d = record {
  state = d.target_state;
  version = version + 1;
  original_status = elim rec [ none ↦ cr.status | some r ↦ r.original_status ];
  reviewer_identity = d.reviewer_identity;
  decision_reason = d.reason;
  decided_at = d.now;
  events = elim rec [ none ↦ review_event d ∷ [] | some r ↦ r.events ++ review_event d ∷ [] ];
}

unfoldable pub write_decision :
    String
    → String
    → Decision
    → Repository
    → Result (ClauseReport × Option ReviewRecord × ℕ)
    → Result ReviewDetail × Repository
write_decision analysis_id clause_id d repo (err e) = (err e, repo)
write_decision analysis_id clause_id d repo (ok (cr, rec, version)) =
    let rec' = decided cr rec version d in
    (
      ok (detail analysis_id cr (some rec')),
      record repo { reviews = insert (analysis_id, clause_id) rec' repo.reviews },
    )

unfoldable pub transition_review :
    String → String → Decision → Repository → Result ReviewDetail × Repository
unfolding write_decision
transition_review analysis_id clause_id d repo =
    write_decision analysis_id clause_id d repo (admit analysis_id clause_id d repo)
