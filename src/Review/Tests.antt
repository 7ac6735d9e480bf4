-- ===== src/Review/Tests.antt =====
-- The review workflow on a small report: tests of agent/persistence.
use cfr_compliance_mcp.Prelude.{
  ℕ, ◌+◌, ◌≤◌, String, ◌≡◌, refl, ◌⊎◌, false, none, some, List, [], ◌∷◌, ◌++◌, map, keep, arith,
  if◌then◌else◌, ◌==◌,
}
use mathlib.Core.List.{Perm}
use cfr_compliance_mcp.Prelude.Dict.{lookup, insert, string_eq, pair_eq}
use cfr_compliance_mcp.Reporting.{ClauseReport, ReportRecord}
use cfr_compliance_mcp.Review.Lifecycle.{validate_transition, is_valid_state}
use cfr_compliance_mcp.Review.Records.{ok, err, PersistenceError, ReviewRecord, Decision}
use cfr_compliance_mcp.Review.Repository.{
  Repository, empty, requires_review, new_review, open_review, open_reviews, save_report,
  find_clause, detail, current_review, admit, review_event, decided, write_decision,
  transition_review,
}
use cfr_compliance_mcp.Review.Queries.{review_matches, review_item, list_review_queue}
use cfr_compliance_mcp.Review.Trail.{AllSound}
use cfr_compliance_mcp.Review.History.{
  Op, save, decide, step, run, run-AllSound, Accepted, transition_review_cases,
}
use cfr_compliance_mcp.Review.Concurrency.{Kept, run-Kept, Refused, no_lost_update}
use cfr_compliance_mcp.Review.Opening.{first_flagged, opened, save_report-opens}
use cfr_compliance_mcp.Review.Counting.{matching_reviews, list_review_queue-pages}

abbrev flagged : ClauseReport
flagged = record {
  clause_id = "c1";
  clause_title = "Waste";
  status = "Needs Review";
  confidence = 0;
  reason = "unclear";
  evidence = [];
  verification_status = "needs_review";
  review_reason = "unclear";
  review_audit = none;
  memory_participated = false;
}

abbrev report : ReportRecord
report = record {
  analysis_id = "a1";
  contract_id = none;
  generated_at = "2024-01-01";
  total_clauses = 1;
  compliant = 0;
  non_compliant = 0;
  needs_review = 1;
  clauses = flagged ∷ [];
}

abbrev decision : String → ℕ → Decision
decision target version = record {
  target_state = target;
  reason = "checked";
  reviewer_identity = "r1";
  expected_version = version;
  now = "2024-01-02";
}

abbrev first_decision : Decision
first_decision = decision "under_review" 1

abbrev saved : Repository
saved = record { analyses = ("a1", report) ∷ []; reviews = (("a1", "c1"), new_review flagged) ∷ [] }

abbrev workflow : List Op
workflow =
    save report ∷ decide "a1" "c1" first_decision ∷ decide "a1" "c1" (decision "approved" 2) ∷ []

abbrev approved_record : ReviewRecord
approved_record = record {
  state = "approved";
  version = 3;
  original_status = "Needs Review";
  reviewer_identity = "r1";
  decision_reason = "checked";
  decided_at = "2024-01-02";
  events = review_event first_decision ∷ review_event (decision "approved" 2) ∷ [];
}

first_accepted :
    (transition_review "a1" "c1" first_decision saved).0
    ≡ ok (detail "a1" flagged (some (decided flagged (some (new_review flagged)) 1 first_decision)))
unfolding transition_review write_decision admit lookup find_clause current_review is_valid_state
    validate_transition new_review
first_accepted = refl

no_lost_update_example :
    Refused "a1" "c1"
      (decision "under_review" 1)
      (run (save report ∷ []) (transition_review "a1" "c1" first_decision saved).1)
no_lost_update_example =
    no_lost_update "a1" "c1" first_decision (decision "under_review" 1) saved
      (detail "a1" flagged (some (decided flagged (some (new_review flagged)) 1 first_decision)))
      (save report ∷ []) first_accepted (omega arith)

transition_review_cases_example :
    ((e : PersistenceError) × (transition_review "a1" "c1" first_decision saved ≡ (err e, saved)))
    ⊎ Accepted "a1" "c1" first_decision saved (transition_review "a1" "c1" first_decision saved)
transition_review_cases_example = transition_review_cases "a1" "c1" first_decision saved

run-AllSound_example : AllSound (run workflow empty).reviews
run-AllSound_example = run-AllSound workflow empty tt

run-Kept_example :
    Kept (lookup ("a1", "c1") saved.reviews) (lookup ("a1", "c1") (run workflow saved).reviews)
run-Kept_example = run-Kept workflow saved ("a1", "c1")

workflow_runs : lookup ("a1", "c1") (run workflow empty).reviews ≡ some approved_record
unfolding run step save_report open_reviews open_review requires_review new_review lookup insert
    transition_review write_decision admit find_clause current_review is_valid_state
    validate_transition decided review_event
workflow_runs = refl

abbrev closed : Repository
closed = record { analyses = ("a1", report) ∷ []; reviews = (("a1", "c1"), approved_record) ∷ [] }

closed_found : lookup ("a1", "c1") closed.reviews ≡ some approved_record
unfolding lookup
closed_found = refl

save_report-opens_example :
    lookup ("a1", "c1") (save_report report empty).1.reviews
    ≡ opened
        (lookup ("a1", "c1") empty.reviews)
        (if report.analysis_id == "a1" then first_flagged "c1" report.clauses else none)
save_report-opens_example = save_report-opens report empty "a1" "c1"

one_review : matching_reviews none saved ≤ 1
unfolding review_matches
one_review = omega arith

list_review_queue-pages_example :
    (list_review_queue none 1 0 saved ++ list_review_queue none 2 (0 + 1) saved
      ≡ list_review_queue none (1 + 2) 0 saved)
    × Perm
        (list_review_queue none 1 0 saved)
        (map (review_item saved) (keep (review_matches none) saved.reviews))
list_review_queue-pages_example = list_review_queue-pages none 1 2 0 1 saved one_review
