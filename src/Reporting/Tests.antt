-- ===== src/Reporting/Tests.antt =====
-- A report of two results: tests of agent/reporting.py.
use cfr_compliance_mcp.Prelude.{◌+◌, ◌≡◌, true, false, none, some, List, [], ◌∷◌, length, map}
use cfr_compliance_mcp.Models.{ComplianceResult, compliant, needs_review, verified, to_review}
use cfr_compliance_mcp.Reporting.{ReportRecord, build_clause_report, build_report}
use cfr_compliance_mcp.Reporting.Identifiers.{sanitize_identifier}
use cfr_compliance_mcp.Reporting.Safe.{FileName, sanitize_identifier-FileName}
use cfr_compliance_mcp.Reporting.Directory.{Directory}
use cfr_compliance_mcp.Reporting.Totals.{build_report-totals}

abbrev passed : ComplianceResult
passed = record {
  clause_title = "Waste";
  clause_id = "c1";
  status = compliant;
  confidence = 90;
  reason = "ok";
  evidence = [];
  verification_status = verified;
  review_reason = "";
  review_audit = none;
  memory_participated = false;
}

abbrev open_result : ComplianceResult
open_result = record passed { status = needs_review; verification_status = to_review }

abbrev two_results : List ComplianceResult
two_results = passed ∷ open_result ∷ []

build_report-totals_example :
    let report = build_report "a1" none "2024-01-01" two_results in
    (report.compliant + report.non_compliant + report.needs_review ≡ report.total_clauses)
    × (report.total_clauses ≡ length two_results)
    × (length report.clauses ≡ length two_results)
    × (report.clauses ≡ map build_clause_report two_results)
build_report-totals_example = build_report-totals "a1" none "2024-01-01" two_results

sanitize_identifier-FileName_example :
    let name = sanitize_identifier (some "../../etc/pass wd") in
    FileName name × (sanitize_identifier (some name) ≡ name)
sanitize_identifier-FileName_example = sanitize_identifier-FileName (some "../../etc/pass wd")

abbrev first_report : ReportRecord
first_report = build_report "a1" none "2024-01-01" two_results

abbrev reports : Directory
reports = record { files = some (("b1.json", none) ∷ []); writable = true }
