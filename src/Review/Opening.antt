-- ===== src/Review/Opening.antt =====
-- Which reviews a saved report opens: `save_report` of agent/persistence/inmemory_repository.py.
use cfr_compliance_mcp.Prelude.{
  String, ◌≡◌, ◌&&◌, Option, none, some, List, [], ◌∷◌, arith, eq_iff, if◌then◌else◌, ◌==◌,
}
use cfr_compliance_mcp.Prelude.Dict.{Dict, lookup, lookup-insert, pair_eq}
use cfr_compliance_mcp.Reporting.{ClauseReport, ReportRecord}
use cfr_compliance_mcp.Review.Records.{ReviewRecord}
use cfr_compliance_mcp.Review.Repository.{
  Repository, requires_review, new_review, open_review, open_reviews, save_report,
}

-- The first clause of a report that has the id and requires a review.
abbrev pub first_flagged : String → List ClauseReport → Option ClauseReport
first_flagged c [] = none
first_flagged c (cr ∷ rest) =
    if requires_review cr && cr.clause_id == c then some cr else first_flagged c rest

abbrev pub opened : Option ReviewRecord → Option ClauseReport → Option ReviewRecord
opened (some r) cr = some r
opened none (some cr) = some (new_review cr)
opened none none = none

module _ (a b c : String) where
  open_one :
      (cr : ClauseReport) (reviews : Dict (String × String) ReviewRecord)
      → lookup (b, c) (open_review a cr reviews)
        ≡ opened (lookup (b, c) reviews) (
            if a == b
            then (if requires_review cr && cr.clause_id == c then some cr else none)
            else none)
  unfolding open_review
  open_one cr reviews = ground (
    arith,
    lookup-insert (a, cr.clause_id) (b, c) (new_review cr) reviews,
    pair_eq.key_eq_iff (a, cr.clause_id) (b, c),
    eq_iff a b,
    eq_iff cr.clause_id c,
  )

  open_all :
      (crs : List ClauseReport) (reviews : Dict (String × String) ReviewRecord)
      → lookup (b, c) (open_reviews a crs reviews)
        ≡ opened (lookup (b, c) reviews) (if a == b then first_flagged c crs else none)
  unfolding open_reviews
  open_all [] reviews = ground arith
  open_all (cr ∷ crs) reviews =
      ground (arith, open_one cr reviews, open_all crs (open_review a cr reviews))

-- After a save every review is known: one that was there is as before, and otherwise there is one
-- exactly for each clause of this report that requires a review, at version 1, in needs_review,
-- with the status of the first such clause of that id.
pub save_report-opens :
    (report : ReportRecord) (repo : Repository) (b c : String)
    → lookup (b, c) (save_report report repo).1.reviews
      ≡ opened
          (lookup (b, c) repo.reviews)
          (if report.analysis_id == b then first_flagged c report.clauses else none)
unfolding save_report
save_report-opens report repo b c = open_all report.analysis_id b c report.clauses repo.reviews
