-- ===== src/Api/History.antt =====
-- A bulk request whose report is read again: `evaluate_bulk_clauses` and `get_analysis` of api.py
-- over the files of agent/reporting.py.
use cfr_compliance_mcp.Prelude.{
  String, ◌≡◌, ◌≢◌, refl, ap, sym, ◌∙◌, true, false, Option, none, List, [], ◌∷◌, arith, truthy,
  length-map, Bool, inl, inr, map, ◌==◌, if◌then◌else◌, All,
}
use cfr_compliance_mcp.Models.{
  ComplianceResult, Status, status_text, compliant, non_compliant, needs_review,
}
use cfr_compliance_mcp.Pipeline.Evaluation.{Memory}
use cfr_compliance_mcp.Pipeline.Results.{or_blank}
use cfr_compliance_mcp.Prelude.Dict.{string_eq}
use cfr_compliance_mcp.Agent.{LlmRequest, LlmAnswer}
use cfr_compliance_mcp.Reporting.{
  ClauseReport, ReportRecord, build_clause_report, count_status, build_report,
}
use cfr_compliance_mcp.Reporting.Directory.{Directory, report_path, Loaded, loaded, load_file}
use cfr_compliance_mcp.Reporting.Saved.{load_file-save_file}
use cfr_compliance_mcp.Api.Input.{ClauseInput, Scan-cases}
use cfr_compliance_mcp.Api.Endpoints.{
  ComplianceResponse, response_from_result, body, BulkComplianceResponse, count_responses,
  persist_bulk_report, persistence_enabled, scan_of, evaluate_one, evaluate_each, summarize_bulk,
  evaluate_bulk_clauses,
}
use cfr_compliance_mcp.Api.Reviews.{ok_response}
use cfr_compliance_mcp.Api.Analyses.{
  in_files, report_files, reading_of_file, respond_reading, get_analysis,
}

-- What a report and a response both say of a clause.
abbrev pub reported : ClauseReport → String × String
reported r = (r.clause_id, r.status)

abbrev pub answered : ComplianceResponse → String × String
answered r = (r.clause_id, status_text r.status)

-- The response is made from the result.
abbrev Agrees : ComplianceResult × ComplianceResponse → Type 0
Agrees (r, response) = (response.clause_id ≡ r.clause_id) × (response.status ≡ r.status)

rows :
    (xs : List (ComplianceResult × ComplianceResponse))
    → All Agrees xs
    → map reported (map build_clause_report (map (λ x. x.0) xs)) ≡ map answered (map (λ x. x.1) xs)
unfolding build_clause_report
rows [] h = refl
rows ((r, response) ∷ xs) ((same_id, same_status), h) =
    rw (same_id, same_status) (ap (λ t. (r.clause_id, status_text r.status) ∷ t) (rows xs h))

counts :
    (s : Status) (xs : List (ComplianceResult × ComplianceResponse))
    → All Agrees xs
    → count_status s (map (λ x. x.0) xs) ≡ count_responses s (map (λ x. x.1) xs)
unfolding count_status count_responses
counts s [] h = refl
counts s ((r, response) ∷ xs) ((same_id, same_status), h) =
    let later = counts s xs h in rw same_status (ground arith)

read_choice :
    (b : Bool) (r : ReportRecord) (other : Loaded)
    → respond_reading (reading_of_file (if b then loaded r else other))
      ≡ (if b then ok_response r else respond_reading (reading_of_file other))
unfolding respond_reading reading_of_file
read_choice true r other = refl
read_choice false r other = refl

module _ (sha256_hex : String → String) (now : String)
    (llm : Option (LlmRequest → Option LlmAnswer)) where
  evaluate_one-Agrees :
      (i : ClauseInput) (memory : Memory) → Agrees (evaluate_one sha256_hex now llm i memory).0
  unfolding evaluate_one response_from_result
  evaluate_one-Agrees i memory = elim (Scan-cases (scan_of sha256_hex now llm i)) [
    | inl (details, unsafe) ↦ rw (unsafe, evaluate_one) (refl, refl)
    | inr (clause, safe) ↦ rw (safe, evaluate_one) (refl, refl)
  ]

  evaluate_each-Agrees :
      (inputs : List ClauseInput) (memory : Memory)
      → All Agrees (evaluate_each sha256_hex now llm inputs memory).0
  unfolding evaluate_each
  evaluate_each-Agrees [] memory = tt
  evaluate_each-Agrees (i ∷ rest) memory = (
    evaluate_one-Agrees i memory,
    evaluate_each-Agrees rest (evaluate_one sha256_hex now llm i memory).1,
  )

  -- A reading of the directory after a save.
  persisted :
      (name new_id a : String) (results : List ComplianceResult) (dir : Directory)
      → truthy name ≡ true
      → dir.writable ≡ true
      → get_analysis in_files a (persist_bulk_report (report_files name) new_id now results dir) ≡ (
          if report_path new_id == report_path a
          then ok_response (build_report new_id none now results)
          else get_analysis in_files a dir)
  unfolding persist_bulk_report persistence_enabled get_analysis or_blank build_report
  persisted name new_id a results dir named writable =
      let r = build_report new_id none now results in
      let (dir', saved, read) = load_file-save_file r dir a writable in
      let kept : persist_bulk_report (report_files name) new_id now results dir ≡ dir' =
        rw (named, saved) refl in
      ap (λ d. get_analysis in_files a d) kept
      ∙ ap (λ x. respond_reading (reading_of_file x)) read
      ∙ read_choice (report_path new_id == report_path a) r (load_file a dir)

  -- What a report kept of a bulk request: the clauses of the response, with their statuses, in its
  -- order, and the counts of the response.
  abbrev pub Reports : ReportRecord → BulkComplianceResponse → Type 0
  Reports r b =
      (map reported r.clauses ≡ map answered b.results)
      × (r.total_clauses ≡ b.total_clauses)
      × (r.compliant ≡ b.compliant)
      × (r.non_compliant ≡ b.non_compliant)
      × (r.needs_review ≡ b.needs_review)

  built-Reports :
      (new_id : String) (xs : List (ComplianceResult × ComplianceResponse))
      → All Agrees xs
      → Reports
          (build_report new_id none now (map (λ x. x.0) xs))
          (summarize_bulk sha256_hex now llm (map (λ x. x.1) xs))
  unfolding build_report summarize_bulk
  built-Reports new_id xs h = (
    rows xs h,
    length-map (λ x. x.0) xs ∙ sym (length-map (λ x. x.1) xs),
    counts compliant xs h,
    counts non_compliant xs h,
    counts needs_review xs h,
  )

  -- With a directory of reports that is set and can be written, a bulk request with at least one
  -- clause leaves a report: the history endpoint answers it for the new identifier, and it has the
  -- clauses, statuses and counts of the response. For any other identifier the endpoint answers that
  -- report if the file names are the same, and else what it answered before.
  pub get_analysis-evaluate_bulk_clauses :
      (name new_id a : String) (inputs : List ClauseInput) (memory : Memory) (dir : Directory)
      → truthy name ≡ true
      → dir.writable ≡ true
      → inputs ≢ []
      → let out =
          evaluate_bulk_clauses sha256_hex now llm
            (report_files name)
            new_id
            inputs
            (memory, dir) in
        (b : BulkComplianceResponse) × (r : ReportRecord) × (out.0 ≡ body b)
        × (get_analysis in_files new_id out.1.1 ≡ ok_response r)
        × Reports r b
        × (get_analysis in_files a out.1.1 ≡ (
            if report_path new_id == report_path a
            then ok_response r
            else get_analysis in_files a dir))
  unfolding evaluate_bulk_clauses
  get_analysis-evaluate_bulk_clauses name new_id a [] memory dir named writable some_clause =
      absurd (some_clause refl)
  get_analysis-evaluate_bulk_clauses name new_id a (i ∷ rest) memory dir named writable
        some_clause =
      let xs = (evaluate_each sha256_hex now llm (i ∷ rest) memory).0 in
      let results = map (λ x. x.0) xs in
      (
        summarize_bulk sha256_hex now llm (map (λ x. x.1) xs),
        build_report new_id none now results,
        refl,
        persisted name new_id new_id results dir named writable
            ∙ (let same : (report_path new_id == report_path new_id) ≡ true =
                  (string_eq.key_eq_iff (report_path new_id) (report_path new_id)).1 refl in
                rw same refl),
        built-Reports new_id xs (evaluate_each-Agrees (i ∷ rest) memory),
        persisted name new_id a results dir named writable,
      )
