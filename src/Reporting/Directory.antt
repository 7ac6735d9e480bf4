-- ===== src/Reporting/Directory.antt =====
-- Report files: `save_report` and `load_report` of agent/reporting.py, and `FileRepository` of
-- agent/persistence/file_repository.py. A directory is what its *.json files hold, by their names:
-- a report, or something that is none. It has no links; the temporary file of a save is gone when
-- the save is over, and a save can fail.
use Prim.Native.String.{◌++◌}
use cfr_compliance_mcp.Prelude.{
  ℕ, ◌+◌, String, Bool, Option, none, some, List, [], ◌∷◌, text_le, sort_by, length, if◌then◌else◌,
}
use cfr_compliance_mcp.Prelude.Dict.{Dict, lookup, insert, string_eq}
use cfr_compliance_mcp.Reporting.{ReportRecord}
use cfr_compliance_mcp.Reporting.Identifiers.{sanitize_identifier}
use cfr_compliance_mcp.Review.Records.{AnalysisSummary, MetricsSummary}
use cfr_compliance_mcp.Review.Queries.{summary, analysis_matches, page}

abbrev pub Files : Type 0
Files = Dict String (Option ReportRecord)

-- `none`: there is no such directory.
pub record Directory : Type 0 where
  pub files : Option Files
  pub writable : Bool

-- `resolve_report_path`, within the directory.
unfoldable pub report_path : String → String
report_path analysis_id = sanitize_identifier (some analysis_id) ++ ".json"

abbrev pub files_of : Option Files → Files
files_of none = []
files_of (some files) = files

-- `save_report`; `none` is an OSError. The directory is made where it is missing.
unfoldable pub save_file : ReportRecord → Directory → Option Directory
save_file record_ dir =
    if dir.writable
    then some (record dir {
      files = some (insert (report_path record_.analysis_id) (some record_) (files_of dir.files));
    })
    else none

pub data Loaded : Type 0 where
  loaded : ReportRecord → Loaded
  not_found not_a_report : Loaded

unfoldable pub read_file : Option (Option ReportRecord) → Loaded
read_file none = not_found
read_file (some none) = not_a_report
read_file (some (some r)) = loaded r

-- `load_report`: FileNotFoundError, or the error of a file that is no report.
unfoldable pub load_file : String → Directory → Loaded
load_file analysis_id dir = read_file (lookup (report_path analysis_id) (files_of dir.files))

-- The loop over the files that `list_analyses` and `count_analyses` share.
unfoldable pub matching_files : Option String → Files → List AnalysisSummary
matching_files status [] = []
matching_files status ((name, none) ∷ rest) = matching_files status rest
matching_files status ((name, some r) ∷ rest) =
    let later = matching_files status rest in
    if analysis_matches status (summary r) then summary r ∷ later else later

unfoldable pub list_files : Option String → ℕ → ℕ → Directory → List AnalysisSummary
list_files status limit offset dir =
    page limit offset
      (matching_files status (sort_by (λ a b. text_le b.0 a.0) (files_of dir.files)))

unfoldable pub count_files : Option String → Directory → ℕ
count_files status dir = length (matching_files status (files_of dir.files))

abbrev pub no_metrics : MetricsSummary
no_metrics = record {
  total_analyses = 0;
  total_clauses = 0;
  compliant = 0;
  non_compliant = 0;
  needs_review = 0;
  review_pending = 0;
}

unfoldable pub add_files : Files → MetricsSummary → MetricsSummary
add_files [] m = m
add_files ((name, none) ∷ rest) m = add_files rest m
add_files ((name, some r) ∷ rest) m = add_files rest (record m {
  total_analyses = m.total_analyses + 1;
  total_clauses = m.total_clauses + r.total_clauses;
  compliant = m.compliant + r.compliant;
  non_compliant = m.non_compliant + r.non_compliant;
  needs_review = m.needs_review + r.needs_review;
})

unfoldable pub summarize_files : Directory → MetricsSummary
unfolding add_files
summarize_files dir = add_files (files_of dir.files) no_metrics
