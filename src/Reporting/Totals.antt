-- ===== src/Reporting/Totals.antt =====
-- The counts of a report: `build_report` of agent/reporting.py, and what `summarize` of
-- agent/persistence/inmemory_repository.py makes of one report.
use cfr_compliance_mcp.Prelude.{
  ◌+◌, String, ◌≡◌, refl, ◌⊎◌, inl, inr, true, false, Option, List, [], ◌∷◌, arith, length,
  length-map, map,
}
use cfr_compliance_mcp.Models.{
  Status, compliant, non_compliant, needs_review, status_eq, ComplianceResult,
}
use cfr_compliance_mcp.Reporting.{build_clause_report, count_status, build_report}

pub one_status :
    (s : Status)
    → ((status_eq s compliant ≡ true)
        × (status_eq s non_compliant ≡ false)
        × (status_eq s needs_review ≡ false))
      ⊎ ((status_eq s compliant ≡ false)
          × (status_eq s non_compliant ≡ true)
          × (status_eq s needs_review ≡ false))
      ⊎ ((status_eq s compliant ≡ false)
          × (status_eq s non_compliant ≡ false)
          × (status_eq s needs_review ≡ true))
one_status compliant = inl (refl, refl, refl)
one_status non_compliant = inr (inl (refl, refl, refl))
one_status needs_review = inr (inr (refl, refl, refl))

counts_add :
    (rs : List ComplianceResult)
    → count_status compliant rs + count_status non_compliant rs + count_status needs_review rs
      ≡ length rs
unfolding count_status
counts_add [] = refl
counts_add (r ∷ rs) = ground (arith, one_status r.status, counts_add rs)

-- The three counts of a report add up to its total, the total is the number of its clauses and of
-- the results, and each clause is the report of the result in its place.
pub build_report-totals :
    (analysis_id : String) (contract_id : Option String) (now : String)
    (results : List ComplianceResult)
    → let report = build_report analysis_id contract_id now results in
      (report.compliant + report.non_compliant + report.needs_review ≡ report.total_clauses)
      × (report.total_clauses ≡ length results)
      × (length report.clauses ≡ length results)
      × (report.clauses ≡ map build_clause_report results)
unfolding build_report
build_report-totals analysis_id contract_id now results =
    (counts_add results, refl, length-map build_clause_report results, refl)
