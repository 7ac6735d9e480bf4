-- ===== src/Api/Analyses.antt =====
-- The history endpoints of api.py, `list_analyses` and `get_analysis`, on the repository in memory
-- or on report files.
use cfr_compliance_mcp.Prelude.{
  ℕ, String, Bool, true, ◌||◌, ◌&&◌, ◌==◌, Option, none, some, List, if◌then◌else◌,
}
use cfr_compliance_mcp.Reporting.{ReportRecord}
use cfr_compliance_mcp.Reporting.Directory.{
  Directory, Loaded, loaded, not_found, not_a_report, load_file, save_file, list_files, count_files,
}
use cfr_compliance_mcp.Review.Records.{AnalysisSummary, Result, ok, err, PersistenceError}
use cfr_compliance_mcp.Review.Repository.{Repository}
use cfr_compliance_mcp.Review.Queries as Queries
use cfr_compliance_mcp.Api.Endpoints.{Persistence}
use cfr_compliance_mcp.Api.Reviews.{
  persistence, handle, Response, error_response, ok_response, valid_page,
}

-- What reading one analysis does: FileNotFoundError, an exception of the backend, or any other.
pub data Reading : Type 0 where
  report_read : ReportRecord → Reading
  file_not_found unexpected : Reading
  raised : PersistenceError → Reading

-- The history methods of a backend whose state is an `R`.
pub record HistoryBackend (R : Type 0) : Type 0 where
  pub list_analyses : Option String → ℕ → ℕ → R → List AnalysisSummary
  pub count_analyses : Option String → R → ℕ
  pub get_analysis : String → R → Reading

unfoldable pub reading_of_file : Loaded → Reading
reading_of_file (loaded r) = report_read r
reading_of_file not_found = file_not_found
reading_of_file not_a_report = unexpected

unfoldable pub reading_of_result : Result ReportRecord → Reading
reading_of_result (ok r) = report_read r
reading_of_result (err e) = raised e

-- `FileRepository`.
abbrev pub in_files : HistoryBackend Directory
in_files = record {
  list_analyses = list_files;
  count_analyses = count_files;
  get_analysis = λ a dir. reading_of_file (load_file a dir);
}

-- `InMemoryRepository`.
abbrev pub in_repository : HistoryBackend Repository
in_repository = record {
  list_analyses = Queries.list_analyses;
  count_analyses = Queries.count_analyses;
  get_analysis = λ a repo. reading_of_result (Queries.load_report a repo);
}

-- `FileRepository` for `persist_bulk_report`, with `CFR_REPORTS_DIR` set to `name`.
abbrev pub report_files : String → Persistence Directory
report_files name = record { backend = "file"; reports_dir = some name; save_report = save_file }

pub record AnalysisListResponse : Type 0 where
  pub items : List AnalysisSummary
  pub total : ℕ
  pub limit : ℕ
  pub offset : ℕ

-- The pattern of the query parameter.
unfoldable pub valid_status : Option String → Bool
valid_status none = true
valid_status (some s) = s == "compliant" || s == "non_compliant" || s == "needs_review"

-- The response for one analysis; "Analysis not found" is the detail of an HTTPException.
unfoldable pub respond_reading : Reading → Response ReportRecord
respond_reading (report_read r) = ok_response r
respond_reading file_not_found = error_response 404 (record { error = "Analysis not found" })
respond_reading (raised e) = error_response (handle (persistence e)).0 (handle (persistence e)).1
respond_reading unexpected = error_response 500 (record { error = "internal_error" })

module _ {R : Type 0} (b : HistoryBackend R) where
  unfoldable pub list_analyses : Option String → ℕ → ℕ → R → Response AnalysisListResponse
  list_analyses status limit offset repo =
      if valid_status status && valid_page limit
      then ok_response (record {
        items = b.list_analyses status limit offset repo;
        total = b.count_analyses status repo;
        limit = limit;
        offset = offset;
      })
      else error_response 422 (record { error = "validation_error" })

  unfoldable pub get_analysis : String → R → Response ReportRecord
  get_analysis analysis_id repo = respond_reading (b.get_analysis analysis_id repo)
